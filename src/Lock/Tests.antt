-- ===== src/Lock/Tests.antt =====
-- The lock on concrete processes: 41 and 42 live, and no other does.
use cryptocourt.Base.{
  ℕ, ◌≡◌, ◌≢◌, ◌↔◌, ◌⊎◌, refl, true, false, none, some, List, [], ◌∷◌, ◌==◌, if◌then◌else◌,
}
use cryptocourt.Base.Text.{Text, codes}
use cryptocourt.Base.Int.{ℤ, pos, negsuc}
use cryptocourt.Lock.{
  Signal, delivered, no_process, World, Env, alive, read_pid, enter, leave, holder, refuse_if_held,
}
use cryptocourt.Lock.Owner.{Refuses, refuse_if_held_lem, leave_steals}

abbrev two_live : ℤ → Signal
two_live (pos n) = if n == 41 then delivered else if n == 42 then delivered else no_process
two_live (negsuc n) = no_process

abbrev stale : World
stale = some (codes " 7\n")

-- A command that fails and leaves another process's file.
abbrev failing : List Text → Env → World → ℕ × World
failing command env w = (3, some (codes "42"))

refuse_if_held_lem_example :
    (((refuse_if_held two_live none stale).0 ≡ true) ↔ Refuses two_live none stale)
    × (((refuse_if_held two_live none stale).1 ≡ stale)
        ⊎ ((pid : ℤ) × (read_pid stale ≡ some pid)
            × (two_live pid ≢ delivered)
            × (refuse_if_held two_live none stale ≡ (false, none))))
refuse_if_held_lem_example = refuse_if_held_lem two_live none stale

stranger : none ≢ (enter 41 stale).1
unfolding enter
stranger e = cc e

some_command : codes "make" ∷ [] ≢ []
some_command e = cc e

leave_steals_example :
    ((holder two_live (enter 42 (enter 41 none).0).0).0 ≡ some (pos 42))
    × (refuse_if_held two_live none (leave (enter 42 (enter 41 none).0).0) ≡ (false, none))
leave_steals_example = leave_steals two_live 41 42 none none (unfold alive in refl)
