-- ===== src/Tests/Sharing.antt =====
-- Two instances of the newest version and one of an older share five segments.
use eventsourcing.Shared.{ℕ, String, ◌≡◌, refl, true, false, List, [], ◌∷◌, length, arith}
use eventsourcing.Projection.{Instance}
use eventsourcing.Projection.Quotas.{Runner, quota, reserve, should_shed, membership}
use eventsourcing.Projection.Quotas.Shares.{total, OneEach, total-quota}
use eventsourcing.Projection.Quotas.Reserving.{
  Turn, takes, gives, run, Within, Bounded, run-Bounded,
}
use eventsourcing.Projection.Quotas.Shedding.{Sheds, should_shed-Sheds}

abbrev instance_of : String → ℕ → ℕ → Instance
instance_of owner version segments = record {
  owner = owner;
  version = version;
  segments = segments;
  age = 0;
}

abbrev others : List Instance
others = instance_of "b" 2 0 ∷ instance_of "c" 1 1 ∷ []

membership_of_b : membership (instance_of "b" 12 0 ∷ []) ≡ "b\012\0"
unfolding membership
membership_of_b = refl

quota_of_a : quota (instance_of "a" 2 4 ∷ others) "a" 5 ≡ 3
unfolding quota eventsourcing.Projection.Quotas.index_from eventsourcing.Projection.Quotas.sorted
    eventsourcing.Projection.Quotas.insert
quota_of_a = refl

one_each : OneEach (instance_of "a" 2 4 ∷ others)
unfolding OneEach
one_each = (refl, (refl, (refl, tt)))

total-quota_example :
    total (λ i. quota (instance_of "a" 2 4 ∷ others) i.owner 5) (instance_of "a" 2 4 ∷ others) ≡ 5
total-quota_example = total-quota (instance_of "a" 2 4) others 5 one_each

-- The instance "a", which holds four segments of its three.
abbrev over_quota : Runner
over_quota = record {
  owner = "a";
  reserved = true ∷ true ∷ true ∷ false ∷ true ∷ [];
  held = 4;
  quota = 3;
  instances_ok = true;
  stable = 2;
  membership = membership (instance_of "a" 2 4 ∷ others);
}

abbrev turns : List Turn
turns = gives 4 ∷ takes 3 ∷ gives 1 ∷ takes 3 ∷ takes 4 ∷ []

turns-Within : Within (length over_quota.reserved) turns
unfolding Within
turns-Within = (omega arith, (omega arith, (omega arith, (omega arith, (omega arith, tt)))))

run-Bounded_example : Bounded over_quota (run turns over_quota)
run-Bounded_example = run-Bounded turns over_quota turns-Within refl

should_shed-Sheds_example : Sheds over_quota
should_shed-Sheds_example = should_shed-Sheds over_quota refl (omega arith) (omega arith) refl
