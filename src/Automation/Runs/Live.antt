-- ===== src/Automation/Runs/Live.antt =====
-- No goroutine of a batch is left waiting for nothing.
use eventsourcing.Shared.{
  ℕ, suc, ◌+◌, ◌<◌, ◌≤◌, ◌≡◌, ◌≢◌, refl, ap, inl, inr, string_eq, nat_eq, Bool, true, false, some,
  List, [], ◌∷◌, get_elem?, arith, Bool-cases, count, count-set_elem, count-get, bit,
}
use eventsourcing.Automation.Runs.{Dispatcher, Job, Stage, works, sends, gone, blocks, ended}
use eventsourcing.Automation.Runs.Moves.{Cases, Stuck}
use eventsourcing.Automation.Runs.Exclusive.{Exclusive, in_work, is_works, moves-Exclusive}

abbrev is_left : Stage → Bool
is_left works = true
is_left sends = true
is_left gone = false

abbrev pub left : {T : Type 0} → Job T → Bool
left j = is_left j.stage

module _ {T : Type 0} where
  count_left : (js : List (Job T)) → count in_work js ≤ count left js
  count_left [] = omega arith
  count_left (j ∷ js) = ground (arith, count_left js)

  -- While the loop blocks, a goroutine is left or a value is in the channel; when it has ended, none
  -- is in work and nothing can start.
  pub record Live (concurrency : ℕ) (d : Dispatcher T) : Type 0 where
    pub exclusive : Exclusive concurrency d
    pub blocked : d.loop ≡ blocks → 0 < d.finished + count left d.jobs
    pub over : d.loop ≡ ended → (d.batch.active ≡ 0) × Stuck concurrency d.batch

  nobody :
      (concurrency : ℕ) (d : Dispatcher T) (i : ℕ) (j : Job T)
      → get_elem? d.jobs i ≡ some j
      → j.stage ≡ works
      → Live concurrency d
      → d.loop ≢ ended
  nobody concurrency d i j at now l e = absurd (
      count-get in_work d.jobs i j at (ap is_works now)
        (omega (arith, l.exclusive.active, (l.over e).0)))

  pub moves-Live :
      {X : Type 0} (concurrency : ℕ) (d : Dispatcher T)
      → Live concurrency d
      → Cases X concurrency (Live concurrency) d
  moves-Live {X} concurrency d l =
      let c : Cases X concurrency (Exclusive concurrency) d =
        moves-Exclusive concurrency d l.exclusive in
      record {
        stays = l;
        starts = λ k it rest e runs room s. record {
          exclusive = c.starts k it rest e runs room s;
          blocked = λ h. cc;
          over = λ h. cc;
        };
        waits = λ e h. record {
          exclusive = c.waits e h;
          blocked = λ _. ground (arith, h, l.exclusive.active, count_left d.jobs);
          over = λ h. cc;
        };
        ends = λ e h stuck. record {
          exclusive = c.ends e h stuck;
          blocked = λ h. cc;
          over = λ _. (ground (arith, h), stuck);
        };
        wakes = λ e h. record { exclusive = c.wakes e h; blocked = λ h. cc; over = λ h. cc };
        settles = λ i out j at now. record {
          exclusive = c.settles i out j at now;
          blocked = λ h. omega (
            arith,
            l.blocked h,
            ap (λ s. bit (is_left s)) now,
            count-set_elem left d.jobs i (record j { stage = sends }) at,
          );
          over = λ h. absurd (nobody concurrency d i j at now l h);
        };
        sends_on = λ i j at now. record {
          exclusive = c.sends_on i j at now;
          blocked = λ h. omega (
            arith,
            l.blocked h,
            ap (λ s. bit (is_left s)) now,
            count-set_elem left d.jobs i (record j { stage = gone }) at,
          );
          over = λ h. l.over h;
        };
      }

  pub count-find :
      (p : Job T → Bool) (js : List (Job T))
      → 0 < count p js
      → (i : ℕ) × (j : Job T) × (get_elem? js i ≡ some j) × (p j ≡ true)
  count-find p [] h = absurd (omega arith)
  count-find p (x ∷ js) h = elim (Bool-cases (p x)) [
    | inl e ↦ (0, x, refl, e)
    | inr e ↦ let (i, j, at, t) = count-find p js (omega (arith, h, ap bit e)) in (suc i, j, at, t)
  ]
