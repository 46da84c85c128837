-- ===== src/Api/Transaction.antt =====
-- The transactions of src/oio/api/blob.hpp as a caller sees them: an object with a step, whose calls
-- give a status, or nothing where the call does not return.
use oio_sds_cpp.Prelude.{ℕ, suc, ◌≤◌, Bool, true, false, List, [], ◌∷◌, Option, some, none, arith}
use oio_sds_cpp.Api.{Step, done, Status, is_ok}

pub record Transaction : Type 1 where
  pub State : Type 0
  pub Other : Type 0
  pub step : State → Step
  pub prepare : State → Option (State × Status)
  pub commit : State → Option (State × Status)
  pub abort : State → Option (State × Status)
  pub other : State → Other → State

pub data Request (A : Type 0) : Type 0 where
  prepares commits aborts : Request A
  others : A → Request A

abbrev pub ends_left : Step → ℕ
ends_left done = 0
ends_left _ = 1

abbrev pub count_if : Bool → ℕ → ℕ
count_if true n = suc n
count_if false n = n

-- What is left to a transaction after a call, with the end that the call was.
abbrev pub left_after : {A : Type 0} → (A → Step) → Option (A × Status) → ℕ
left_after step none = 0
left_after step (some (s, rc)) = count_if (is_ok rc) (ends_left (step s))

abbrev pub left_prepared : {A : Type 0} → (A → Step) → Option (A × Status) → ℕ
left_prepared step none = 0
left_prepared step (some (s, rc)) = ends_left (step s)

-- A transaction that can be ended once.
pub record EndsOnce (t : Transaction) : Type 0 where
  pub prepare_left : (s : t.State) → left_prepared t.step (t.prepare s) ≤ ends_left (t.step s)
  pub commit_left : (s : t.State) → left_after t.step (t.commit s) ≤ ends_left (t.step s)
  pub abort_left : (s : t.State) → left_after t.step (t.abort s) ≤ ends_left (t.step s)
  pub other_left :
      (s : t.State) (o : t.Other) → ends_left (t.step (t.other s o)) ≤ ends_left (t.step s)

module _ (t : Transaction) where
  -- How the calls after one go on, and whether it ended the transaction with success.
  abbrev go_on : Bool → Option (t.State × Status) → (t.State → ℕ) → ℕ
  go_on counts none rest = 0
  go_on true (some (s, rc)) rest = count_if (is_ok rc) (rest s)
  go_on false (some (s, rc)) rest = rest s

  -- How many of the calls end a transaction with success; a call that does not return is the last one.
  unfoldable pub ends : List (Request t.Other) → t.State → ℕ
  ends [] s = 0
  ends (prepares ∷ calls) s = go_on false (t.prepare s) (ends calls)
  ends (commits ∷ calls) s = go_on true (t.commit s) (ends calls)
  ends (aborts ∷ calls) s = go_on true (t.abort s) (ends calls)
  ends (others o ∷ calls) s = ends calls (t.other s o)

  count_if_mono : (b : Bool) (m n : ℕ) → m ≤ n → count_if b m ≤ count_if b n
  count_if_mono true m n h = omega arith
  count_if_mono false m n h = h

  go_on_left :
      (r : Option (t.State × Status)) (n : ℕ) (rest : t.State → ℕ)
      → ((s : t.State) → rest s ≤ ends_left (t.step s))
      → left_after t.step r ≤ n
      → go_on true r rest ≤ n
  go_on_left none n rest f h = omega arith
  go_on_left (some (s, rc)) n rest f h =
      omega (arith, count_if_mono (is_ok rc) (rest s) (ends_left (t.step s)) (f s))

  go_on_prepared :
      (r : Option (t.State × Status)) (n : ℕ) (rest : t.State → ℕ)
      → ((s : t.State) → rest s ≤ ends_left (t.step s))
      → left_prepared t.step r ≤ n
      → go_on false r rest ≤ n
  go_on_prepared none n rest f h = omega arith
  go_on_prepared (some (s, rc)) n rest f h = omega (arith, f s)

  -- The calls on a transaction that can be ended once end it at most once.
  pub ends-le :
      EndsOnce t
      → (calls : List (Request t.Other)) (s : t.State) → ends calls s ≤ ends_left (t.step s)
  unfolding ends
  ends-le law [] s = omega arith
  ends-le law (prepares ∷ calls) s =
      go_on_prepared (t.prepare s) (ends_left (t.step s)) (ends calls) (ends-le law calls)
        (law.prepare_left s)
  ends-le law (commits ∷ calls) s =
      go_on_left (t.commit s) (ends_left (t.step s)) (ends calls) (ends-le law calls)
        (law.commit_left s)
  ends-le law (aborts ∷ calls) s =
      go_on_left (t.abort s) (ends_left (t.step s)) (ends calls) (ends-le law calls)
        (law.abort_left s)
  ends-le law (others o ∷ calls) s =
      omega (arith, ends-le law calls (t.other s o), law.other_left s o)
