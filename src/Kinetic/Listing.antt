-- ===== src/Kinetic/Listing.antt =====
-- KineticListing of src/oio/blob/kinetic/coro/blob.cpp: the keys of a name, gathered from each drive by
-- requests that start behind the last key of the reply before.
use oio_sds_cpp.Prelude.{
  ℕ, zero, suc, ◌+◌, Bool, true, false, ◌||◌, if◌then◌else◌, List, [], ◌∷◌, ◌++◌, map, Option, some,
  none, Bytes, get_elem?,
}
use oio_sds_cpp.Api.{Status, status, success, not_found}
use oio_sds_cpp.Kinetic.Upload.{dash}

-- A drive of the listing: its name, readyv[i] and markers[i].
pub record Cursor : Type 0 where
  pub id : Bytes
  pub ready : Bool
  pub marker : Bytes

pub record KineticListing : Type 0 where
  pub items : List (Bytes × Bytes)
  pub next_item : ℕ

-- What a drive replies to a GetKeyRange: the drive, the start and the end, both left out.
abbrev pub Range : Type 0
Range = Bytes → Bytes → Bytes → List Bytes

-- name + "-" and name + "-X"
abbrev pub range_start : Bytes → Bytes
range_start name = name ++ dash ∷ []

abbrev pub range_end : Bytes → Bytes
range_end name = name ++ dash ∷ b'X' ∷ []

-- keys.back(), of keys that start with `k`
abbrev pub back : Bytes → List Bytes → Bytes
back k [] = k
back k (k' ∷ keys) = back k' keys

abbrev pub named : Bytes → List Bytes → List (Bytes × Bytes)
named id [] = []
named id (k ∷ keys) = (id, k) ∷ named id keys

-- What a reply does to the cursor, and the items it adds.
unfoldable pub take_keys : Cursor → List Bytes → Cursor × List (Bytes × Bytes)
take_keys c [] = (record c { ready = false }, [])
take_keys c (k ∷ keys) = (record c { marker = back k keys }, named c.id (k ∷ keys))

-- One drive in a batch of listings.
unfoldable pub ask : Range → Bytes → Cursor → Cursor × List (Bytes × Bytes)
unfolding take_keys
ask range end c = if c.ready then take_keys c (range c.id c.marker end) else (c, [])

unfoldable pub ask_all : Range → Bytes → List Cursor → List Cursor × List (Bytes × Bytes)
ask_all range end [] = ([], [])
ask_all range end (c ∷ cs) =
    let (c', keys) = ask range end c in
    let (cs', others) = ask_all range end cs in (c' ∷ cs', keys ++ others)

abbrev pub any_ready : List Cursor → Bool
any_ready [] = false
any_ready (c ∷ cs) = c.ready || any_ready cs

-- The endless loop of Prepare; `none` when the fuel ends before it breaks.
unfoldable pub list_all : ℕ → Range → Bytes → List Cursor → Option (List (Bytes × Bytes))
list_all zero range end cs = if any_ready cs then none else some []
list_all (suc fuel) range end cs =
    let (cs', items) = ask_all range end cs in
    let rest = list_all fuel range end cs' in
    if any_ready cs
    then elim rest [ none ↦ none | some others ↦ some (items ++ others) ]
    else some []

abbrev pub cursors : Bytes → List Bytes → List Cursor
cursors name clients = map (λ c. record { id = c; ready = true; marker = range_start name }) clients

unfoldable pub listed_as : Option (List (Bytes × Bytes)) → Option (KineticListing × Status)
listed_as none = none
listed_as (some []) = some (record { items = []; next_item = 0 }, status not_found)
listed_as (some (i ∷ items)) = some (record { items = i ∷ items; next_item = 0 }, success)

-- KineticListing::Prepare, of a new listing
unfoldable pub prepare : ℕ → Range → Bytes → List Bytes → Option (KineticListing × Status)
unfolding listed_as
prepare fuel range name clients =
    listed_as (list_all fuel range (range_end name) (cursors name clients))

-- KineticListing::Next
unfoldable pub next : KineticListing → KineticListing × Option (Bytes × Bytes)
next l = elim (get_elem? l.items l.next_item) [
  | none ↦ (l, none)
  | some item ↦ (record l { next_item = l.next_item + 1 }, some item)
]

-- The loop of a caller over `Next`.
unfoldable pub next_all : ℕ → KineticListing → List (Bytes × Bytes)
next_all zero l = []
next_all (suc fuel) l =
    let (l', item) = next l in
    let rest = next_all fuel l' in elim item [ none ↦ [] | some i ↦ i ∷ rest ]
