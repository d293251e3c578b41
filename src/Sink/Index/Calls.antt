-- ===== src/Sink/Index/Calls.antt =====
-- The calls of the writer that a call of indexEvents makes.
use mathlib.Core.List.{append_assoc, append-nil}
use splunk_firehose_nozzle.Base.{
  ℕ, zero, suc, ◌+◌, Bool, true, false, Option, none, some, List, [], ◌∷◌, ◌++◌, ◌≡◌, refl, sym,
  ◌∙◌,
}
use splunk_firehose_nozzle.Sink.Build.{SinkConfig}
use splunk_firehose_nozzle.Sink.Index.{
  Written, Writer, Indexed, after_attempt, attempts, index_events,
}

-- A call: the events that the writer is given, and what it answers.
abbrev pub Call : Type 0 → Type 0 → Type 0
Call B Err = List B × Written B Err

-- A writer that keeps a record of its calls, oldest first.
abbrev pub observed_writer :
    {B Err W : Type 0} → Writer B Err W → Writer B Err (List (Call B Err) × W)
observed_writer writer batch (calls, w) =
    let (r, w') = writer batch w in (r, (calls ++ (batch, r) ∷ [], w'))

-- The calls for one batch, where so many are allowed: a call without an error is the last, and after
-- one with an error the writer is given the events as that call has left them.
pub data Attempts {B Err : Type 0} : ℕ → List B → List (Call B Err) → Bool → Type 0 where
  given_up : {batch : List B} → Attempts 0 batch [] false
  taken :
      {left : ℕ} {batch : List B} (r : Written B Err)
      → r.error ≡ none
      → Attempts (suc left) batch ((batch, r) ∷ []) true
  repeated :
      {left : ℕ} {batch : List B} {rest : List (Call B Err)} {accepted : Bool} (r : Written B Err)
      (e : Err)
      → r.error ≡ some e
      → Attempts left r.batch rest accepted
      → Attempts (suc left) batch ((batch, r) ∷ rest) accepted

module _ {B Err W : Type 0} (writer : Writer B Err W) (config : SinkConfig) where
  -- The calls that were made behind those before, and how the batch fared.
  abbrev pub Calls : List B → ℕ → List (Call B Err) → Indexed B Err (List (Call B Err) × W) → Type 0
  Calls batch left before r =
      (calls : List (Call B Err)) × (r.state.0 ≡ before ++ calls)
      × Attempts left batch calls r.accepted

  after_attempt-Calls :
      (left i : ℕ) (batch : List B) (before : List (Call B Err)) (r : Written B Err) (w : W)
      (error : Option Err) (retry : Indexed B Err (List (Call B Err) × W))
      → r.error ≡ error
      → Calls r.batch left (before ++ (batch, r) ∷ []) retry
      → Calls batch
          (suc left)
          before
          (after_attempt config i error r.count (before ++ (batch, r) ∷ [], w) retry)
  unfolding after_attempt
  after_attempt-Calls left i batch before r w none retry fine rest =
      ((batch, r) ∷ [], refl, taken r fine)
  after_attempt-Calls left i batch before r w (some e) retry wrong (calls, all, rest) = (
    (batch, r) ∷ calls,
    all ∙ append_assoc before ((batch, r) ∷ []) calls,
    repeated r e wrong rest,
  )

  attempts-Calls :
      (left i : ℕ) (batch : List B) (before : List (Call B Err)) (w : W)
      → Calls batch left before (attempts (observed_writer writer) config left i batch (before, w))
  unfolding attempts
  attempts-Calls zero i batch before w = ([], sym (append-nil before), given_up)
  attempts-Calls (suc left) i batch before w =
      let (r, w') = writer batch w in
      after_attempt-Calls left i batch before r w' r.error _ refl
        (attempts-Calls left (i + 1) r.batch (before ++ (batch, r) ∷ []) w')

  pub index_events-Calls :
      (e : B) (batch : List B) (before : List (Call B Err)) (w : W)
      → Calls
          (e ∷ batch)
          config.retries
          before
          (index_events (observed_writer writer) config (e ∷ batch) (before, w))
  unfolding index_events
  index_events-Calls e batch before w = attempts-Calls config.retries 0 (e ∷ batch) before w

  pub index_events_empty :
      (w : W) (before : List (Call B Err))
      → (index_events (observed_writer writer) config [] (before, w)).state.0 ≡ before
  unfolding index_events
  index_events_empty w before = refl
