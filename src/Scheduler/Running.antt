-- ===== src/Scheduler/Running.antt =====
-- Which tasks run, by the texts that `plan` is given.
use aegis_forge.Prelude.{
  refl, Bool, false, Option, none, some, ◌==◌, eq_iff, ◌∙◌, if◌then◌else◌, ◌≡◌, sym, ap, inl, inr,
  List, [], ◌∷◌, arith, Bool-cases,
}
use aegis_forge.Prelude.Result.{ok_injective, Result-cases, ok}
use aegis_forge.Prelude.Table.{select}
use aegis_forge.Scheduler.Graph.{TaskNode}
use aegis_forge.Scheduler.Plan.{
  ExecutionStatus, is_running, status_of, of_value, Given, Entry, normalize, given_status,
  running_tasks,
}

-- The tasks whose given status is the text RUNNING, and their units.
says_running : Option Given → Bool
says_running none = false
says_running (some g) = g.status == "RUNNING"

unfoldable pub running_now : List Given → List TaskNode → List TaskNode
unfolding says_running
running_now given [] = []
running_now given (n ∷ ns) =
    let rest = running_now given ns in
    if says_running (select Given.node_id n.node_id given) then n ∷ rest else rest

is_running-text :
    (o : Option Given) (s : ExecutionStatus) → given_status o ≡ ok s → is_running s ≡ says_running o
unfolding given_status status_of of_value is_running says_running
is_running-text none s h = ground (arith, h)
is_running-text (some g) s h = elim (Bool-cases (g.status == "RUNNING")) [
  | inl e ↦
      ap is_running (ok_injective (sym h ∙ ap status_of ((eq_iff g.status "RUNNING").0 e))) ∙ sym e
  | inr e ↦ ground (arith, h, e)
]

pub normalize-running :
    (given : List Given) (ns : List TaskNode) (es : List Entry)
    → normalize given ns ≡ ok es
    → running_tasks es ≡ running_now given ns
unfolding normalize running_tasks running_now
normalize-running given [] es h = ap running_tasks (ok_injective (sym h))
normalize-running given (n ∷ ns) es h =
    elim (Result-cases (given_status (select Given.node_id n.node_id given))) [
      | inr (x, a) ↦ absurd (ground (arith, h, a))
      | inl (st, a) ↦ elim (Result-cases (normalize given ns)) [
        | inr (x, b) ↦ absurd (ground (arith, h, a, b))
        | inl (rest, b) ↦
            let made : record { node = n; status = st } ∷ rest ≡ es = ground (arith, h, a, b) in
            ap running_tasks (sym made)
            ∙ rw (is_running-text (select Given.node_id n.node_id given) st a)
                (rw (normalize-running given ns rest b) refl)
      ]
    ]
