-- ===== src/Loop/Runs.antt =====
-- `New`, `Run` and `load` of internal/loop/loop.go. An error that the code wraps with a context stands
-- here as what it wraps.
use m3_repoworker.Prelude.{
  ℕ, suc, zero, ◌+◌, ◌*◌, Bool, true, false, ◌&&◌, ◌||◌, not, List, [], ◌∷◌, Bytes, text, bytes_eq,
  is_empty, Option, none, some, ◌⊎◌, inl, inr, leb, ltb, ◌==◌, if◌then◌else◌, length, eq_by,
}
use m3_repoworker.Loop.Types.{
  inspect, Binding, Binding-discrete, State, Error, rejected, from_cause, Answer, answered, refused,
  Event, no_state,
}
use m3_repoworker.Loop.Services.{Services}
use m3_repoworker.Loop.Plans.{valid_binding}
use m3_repoworker.Loop.Controller.{loop}

pub record Request : Type 0 where
  pub run_id : Bytes
  pub binding : Binding

unfoldable pub valid_request : Request → Bool
valid_request request = not (is_empty request.run_id) && valid_binding request.binding

-- The bounds that `New` asks of the number of retries.
unfoldable pub valid_retries : ℕ → Bool
valid_retries max_retries = not (max_retries == 0) && leb max_retries 10

abbrev pub page_size : ℕ
page_size = 1000

-- The state that a run without a stored one starts in.
abbrev pub initial : Binding → State
initial binding = record no_state { phase = inspect; binding = binding }

module _ {S : Type 0} (services : Services S) where
  -- What one event makes of the state; `none` where `load` rejects it.
  unfoldable pub absorb : Binding → State → Event → Option State
  absorb binding state event =
      if not (bytes_eq event.type (text "loop.state"))
      then some state
      else elim (services.unmarshal event.payload) [
        | none ↦ none
        | some candidate ↦
            if eq_by Binding-discrete candidate.binding binding then some candidate else none
      ]

  unfoldable pub absorb_all : Binding → State → ℕ → List Event → Option (State × ℕ)
  absorb_all binding state after [] = some (state, after)
  absorb_all binding state after (event ∷ events) = elim (absorb binding state event) [
    | none ↦ none
    | some next ↦ absorb_all binding next event.sequence events
  ]

  -- The loop over the pages of events, on the pages that are left.
  unfoldable pub load_pages : ℕ → Bytes → Binding → State → ℕ → S → (Error ⊎ State) × S
  load_pages zero run_id binding state after w = (inl rejected, w)
  load_pages (suc pages) run_id binding state after w =
      let (answer, w1) = services.list_events run_id after page_size w in
      elim answer [
        | refused cause ↦ (inl (from_cause cause), w1)
        | answered events ↦ elim (absorb_all binding state after events) [
          | none ↦ (inl rejected, w1)
          | some (next, last) ↦ elim (ltb (length events) page_size) [
            | true ↦ (inr next, w1)
            | false ↦ load_pages pages run_id binding next last w1
          ]
        ]
      ]

  unfoldable pub load : Request → S → (Error ⊎ State) × S
  load request w = load_pages 10 request.run_id request.binding (initial request.binding) 0 w

  -- More turns than any run takes.
  abbrev pub enough_turns : ℕ → ℕ
  enough_turns max_retries = 6 * max_retries + 10

  unfoldable pub run_loaded : ℕ → Request → (Error ⊎ State) × S → Option (State × Option Error) × S
  run_loaded max_retries request (inl e, w) = (some (no_state, some e), w)
  run_loaded max_retries request (inr state, w) =
      loop services max_retries request.run_id (enough_turns max_retries) request.binding state w

  unfoldable pub run_bound : ℕ → Request → Answer Binding × S → Option (State × Option Error) × S
  run_bound max_retries request (refused cause, w) = (some (no_state, some rejected), w)
  run_bound max_retries request (answered stored, w) =
      if not (eq_by Binding-discrete stored request.binding)
      then (some (no_state, some rejected), w)
      else run_loaded max_retries request (load request w)

  -- `Run`; the first argument says whether the context is not nil.
  unfoldable pub run : ℕ → Bool → Request → S → Option (State × Option Error) × S
  run max_retries ctx request w =
      if not ctx || not (valid_request request)
      then (some (no_state, some rejected), w)
      else run_bound max_retries request (services.get_run request.run_id w)
