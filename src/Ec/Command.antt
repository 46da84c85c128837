-- ===== src/Ec/Command.antt =====
-- RawxUrlSet of src/oio/blob/rawx/blob.hpp and EcCommand of src/oio/blob/ec/blob.hpp.
use oio_sds_cpp.Prelude.{
  ℕ, suc, ◌≤◌, ltb, Bool, Bool-cases, inl, inr, ltb→lt, if◌then◌else◌, List, [], ◌∷◌, Bytes, arith,
}
use oio_sds_cpp.Rawx.Url.{RawxUrl}
use oio_sds_cpp.Rawx.Command.{Range, empty_range}

pub record RawxUrlSet : Type 0 where
  pub url : RawxUrl
  pub chunk_number : ℕ

-- RawxUrlSet::operator<
abbrev pub before : RawxUrlSet → RawxUrlSet → Bool
before a b = ltb a.chunk_number b.chunk_number

-- `std::set<RawxUrlSet>::insert`: a target whose number is in the set already is left out.
unfoldable pub insert_target : List RawxUrlSet → RawxUrlSet → List RawxUrlSet
insert_target [] t = t ∷ []
insert_target (u ∷ us) t =
    let later = u ∷ insert_target us t in
    if before t u then t ∷ u ∷ us else if before u t then later else u ∷ us

-- The copy that EcCommand::Set makes of the targets.
unfoldable pub insert_targets : List RawxUrlSet → List RawxUrlSet → List RawxUrlSet
unfolding insert_target
insert_targets done [] = done
insert_targets done (t ∷ ts) = insert_targets (insert_target done t) ts

pub record EcCommand : Type 0 where
  pub range : Range
  pub targets : List RawxUrlSet
  pub req_id : Bytes
  pub k : ℕ
  pub m : ℕ
  pub nb_chunks : ℕ
  pub encoding_method : ℕ
  pub chunk_size : ℕ

-- EcCommand::Clear
abbrev pub empty_command : EcCommand
empty_command = record {
  range = empty_range;
  targets = [];
  req_id = [];
  k = 0;
  m = 0;
  nb_chunks = 0;
  encoding_method = 0;
  chunk_size = 0;
}

-- EcCommand::AddTarget
abbrev pub add_target : EcCommand → RawxUrlSet → EcCommand
add_target c t = record c { targets = insert_target c.targets t }

-- EcCommand::Set: what the command held is cleared.
abbrev pub set : EcCommand → EcCommand → EcCommand
set c arg = record arg { targets = insert_targets [] arg.targets }

-- The numbers of the targets rise, from a number on.
abbrev pub RisesFrom : ℕ → List RawxUrlSet → Type 0
RisesFrom n [] = Unit
RisesFrom n (t ∷ ts) = (n ≤ t.chunk_number) × RisesFrom (suc t.chunk_number) ts

pub insert_target-RisesFrom :
    (n : ℕ) (ts : List RawxUrlSet) (t : RawxUrlSet)
    → n ≤ t.chunk_number
    → RisesFrom n ts
    → RisesFrom n (insert_target ts t)
unfolding insert_target
insert_target-RisesFrom n [] t h r = (h, tt)
insert_target-RisesFrom n (u ∷ us) t h r = elim (Bool-cases (before t u)) [
  | inl first ↦ rw first (h, (ltb→lt _ _ first, r.1))
  | inr f ↦ elim (Bool-cases (before u t)) [
    | inl later ↦
        rw (f, later)
          (r.0, insert_target-RisesFrom (suc u.chunk_number) us t (ltb→lt _ _ later) r.1)
    | inr same ↦ rw (f, same) r
  ]
]

-- The targets of a command are in the order of their numbers, each number once, however they are added.
pub insert_targets-RisesFrom :
    (done ts : List RawxUrlSet) → RisesFrom 0 done → RisesFrom 0 (insert_targets done ts)
unfolding insert_targets
insert_targets-RisesFrom done [] r = r
insert_targets-RisesFrom done (t ∷ ts) r =
    insert_targets-RisesFrom (insert_target done t) ts
      (insert_target-RisesFrom 0 done t (omega arith) r)
