-- ===== src/Kinetic/Batches.antt =====
-- The batches of KineticListing::Prepare of src/oio/blob/kinetic/coro/blob.cpp: each takes keys off what
-- the drives have left.
use oio_sds_cpp.Prelude.{
  ℕ, zero, suc, ◌+◌, ◌≤◌, ◌<◌, Bool, true, false, ◌||◌, if◌then◌else◌, List, [], ◌∷◌, ◌++◌, some,
  Bytes, length, ◌≡◌, refl, sym, ◌∙◌, ap, take, drop, arith, length-drop, append_assoc,
  take-append-drop, Bool-cases, inl, inr, subst,
}
use mathlib.Core.List.{Permᴰ}
use mathlib.Core.List.Permᴰ
use oio_sds_cpp.Kinetic.Gathered.{append_swap}
use oio_sds_cpp.Kinetic.Listing.{
  Cursor, Range, back, take_keys, ask, ask_all, any_ready, list_all, named,
}

-- A drive that has, behind each key, the keys `after` it up to the end, in order, and replies with the
-- first `batch` of them.
pub record InOrder (after range : Range) (batch : ℕ) (end : Bytes) : Type 0 where
  pub some_keys : 0 < batch
  pub replies : (id start : Bytes) → range id start end ≡ take batch (after id start end)
  pub ordered :
      (id start k : Bytes) (keys rest : List Bytes)
      → after id start end ≡ (k ∷ keys) ++ rest
      → after id (back k keys) end ≡ rest

-- The keys that a cursor has still to list.
abbrev pub left_of : Range → Bytes → Cursor → List (Bytes × Bytes)
left_of after end c = if c.ready then named c.id (after c.id c.marker end) else []

abbrev pub left_all : Range → Bytes → List Cursor → List (Bytes × Bytes)
left_all after end [] = []
left_all after end (c ∷ cs) = left_of after end c ++ left_all after end cs

named-append : (id : Bytes) (xs ys : List Bytes) → named id (xs ++ ys) ≡ named id xs ++ named id ys
named-append id [] ys = refl
named-append id (x ∷ xs) ys = ap (λ l. (id, x) ∷ l) (named-append id xs ys)

length-named : (id : Bytes) (xs : List Bytes) → length (named id xs) ≡ length xs
length-named id [] = refl
length-named id (x ∷ xs) = ap suc (length-named id xs)

abbrev pub one_if : Bool → ℕ
one_if true = 1
one_if false = 0

-- What is left to a cursor, and whether it is ready, bound the rounds to come.
abbrev pub work : Range → Bytes → Cursor → ℕ
work after end c = length (left_of after end c) + one_if c.ready

abbrev pub work_all : Range → Bytes → List Cursor → ℕ
work_all after end [] = 0
work_all after end (c ∷ cs) = work after end c + work_all after end cs

record Asked (after : Range) (end : Bytes) (c : Cursor) (r : Cursor × List (Bytes × Bytes))
    : Type 0 where
  pub split : left_of after end c ≡ r.1 ++ left_of after end r.0
  pub less : work after end r.0 + one_if c.ready ≤ work after end c

ready_left :
    (after : Range) (end : Bytes) (c : Cursor) (keys : List Bytes)
    → c.ready ≡ true
    → after c.id c.marker end ≡ keys
    → left_of after end c ≡ named c.id keys
ready_left after end c keys t e = simp t (ap (named c.id) e)

ready_work :
    (after : Range) (end : Bytes) (c c' : Cursor)
    → c.ready ≡ true
    → c'.ready ≡ true
    → length (left_of after end c') + 1 ≤ length (left_of after end c)
    → work after end c' + one_if c.ready ≤ work after end c
ready_work after end c c' t t' h =
    let one : one_if c.ready ≡ 1 = ap one_if t in
    let one' : one_if c'.ready ≡ 1 = ap one_if t' in omega arith

take_keys-Asked :
    (after range : Range) (batch : ℕ) (end : Bytes) (c : Cursor) (all : List Bytes)
    → InOrder after range batch end
    → c.ready ≡ true
    → after c.id c.marker end ≡ all
    → Asked after end c (take_keys c (take batch all))
unfolding take_keys
take_keys-Asked after range zero end c all h t e = absurd (omega (arith, h.some_keys))
take_keys-Asked after range (suc b) end c [] h t e = record {
  split = ready_left after end c [] t e;
  less = omega arith;
}
take_keys-Asked after range (suc b) end c (k ∷ rest) h t e =
    let later : after c.id (back k (take b rest)) end ≡ drop b rest =
      h.ordered c.id c.marker k (take b rest) (drop b rest)
        (e ∙ ap (λ l. k ∷ l) (sym (take-append-drop b rest))) in
    let before = ready_left after end c (k ∷ rest) t e in
    let behind =
      ready_left after end (record c { marker = back k (take b rest) }) (drop b rest) t later in
    let pieces : named c.id rest
        ≡ named c.id (take b rest)
          ++ left_of after end (record c { marker = back k (take b rest) }) =
      ap (named c.id) (sym (take-append-drop b rest))
      ∙ named-append c.id (take b rest) (drop b rest)
      ∙ ap (λ l. named c.id (take b rest) ++ l) (sym behind) in
    record {
      split = before ∙ ap (λ l. (c.id, k) ∷ l) pieces;
      less =
          ready_work after end c (record c { marker = back k (take b rest) }) t t
            (omega (
              arith,
              ap length before,
              ap length behind,
              length-named c.id rest,
              length-named c.id (drop b rest),
              length-drop b rest,
            ));
    }

unready : (after : Range) (end : Bytes) (c : Cursor) → c.ready ≡ false → Asked after end c (c, [])
unready after end c f =
    let zero_left : one_if c.ready ≡ 0 = ap one_if f in record { split = refl; less = omega arith }

count_or : (a b : Bool) → one_if (a || b) ≤ one_if a + one_if b
count_or true b = omega arith
count_or false b = omega arith

module _ {ℓ} {A : Type ℓ} where
  interleaved :
      (k l ks la all : List A)
      → Permᴰ all (ks ++ la)
      → Permᴰ ((k ++ l) ++ all) ((k ++ ks) ++ (l ++ la))
  interleaved k l ks la all d =
      subst (λ x. Permᴰ x ((k ++ ks) ++ (l ++ la))) (sym (append_assoc k l all))
        (subst (λ x. Permᴰ (k ++ (l ++ all)) x) (sym (append_assoc k ks (l ++ la)))
          (Permᴰ.append_left k (Permᴰ.trans (Permᴰ.append_left l d) (append_swap l ks la))))

ask-Asked :
    (after range : Range) (batch : ℕ) (end : Bytes) (c : Cursor)
    → InOrder after range batch end
    → Asked after end c (ask range end c)
unfolding ask
ask-Asked after range batch end c h = elim (Bool-cases c.ready) [
  | inl t ↦
      subst
        (λ (r : Bool).
          Asked after end c (if r then take_keys c (range c.id c.marker end) else (c, [])))
        (sym t)
        (subst (λ keys. Asked after end c (take_keys c keys)) (sym (h.replies c.id c.marker))
          (take_keys-Asked after range batch end c (after c.id c.marker end) h t refl))
  | inr f ↦
      subst
        (λ (r : Bool).
          Asked after end c (if r then take_keys c (range c.id c.marker end) else (c, [])))
        (sym f) (unready after end c f)
]

-- A batch of listings: what it gives and what is left are the keys that were left before, and while a
-- drive is ready there is less to do after it.
record AskedAll (after : Range) (end : Bytes) (cs : List Cursor)
    (r : List Cursor × List (Bytes × Bytes)) : Type 0 where
  pub split : Permᴰ (left_all after end cs) (r.1 ++ left_all after end r.0)
  pub less : work_all after end r.0 + one_if (any_ready cs) ≤ work_all after end cs

ask_all-AskedAll :
    (after range : Range) (batch : ℕ) (end : Bytes) (cs : List Cursor)
    → InOrder after range batch end
    → AskedAll after end cs (ask_all range end cs)
unfolding ask_all
ask_all-AskedAll after range batch end [] h = record { split = Permᴰ.nil; less = omega arith }
ask_all-AskedAll after range batch end (c ∷ cs) h =
    let one = ask-Asked after range batch end c h in
    let asked = ask_all range end cs in
    let others = ask_all-AskedAll after range batch end cs h in
    record {
      split =
          subst
            (λ x. Permᴰ (x ++ left_all after end cs) (
              ((ask range end c).1 ++ asked.1)
              ++ (left_of after end (ask range end c).0 ++ left_all after end asked.0)))
            (sym one.split)
            (interleaved (ask range end c).1 (left_of after end (ask range end c).0) asked.1
              (left_all after end asked.0) (left_all after end cs) others.split);
      less = omega (arith, one.less, others.less, count_or c.ready (any_ready cs));
    }

none_left :
    (after : Range) (end : Bytes) (cs : List Cursor)
    → any_ready cs ≡ false
    → left_all after end cs ≡ []
none_left after end [] h = refl
none_left after end (c ∷ cs) h =
    let unready_one : c.ready ≡ false = ground arith in
    let unready_all : any_ready cs ≡ false = ground arith in
    let nothing : left_of after end c ≡ [] = simp unready_one in
    rw nothing (none_left after end cs unready_all)

-- With fuel for the work, the batches of listings end, and their items are the keys that were left, each
-- once.
pub list_all-left_all :
    (after range : Range) (batch : ℕ) (end : Bytes) (fuel : ℕ) (cs : List Cursor)
    → InOrder after range batch end
    → work_all after end cs ≤ fuel
    → (items : List (Bytes × Bytes)) × (list_all fuel range end cs ≡ some items)
      × Permᴰ (left_all after end cs) items
unfolding list_all
list_all-left_all after range batch end zero cs h b =
    let asked = ask_all-AskedAll after range batch end cs h in
    elim (Bool-cases (any_ready cs)) [
      | inl t ↦ absurd (omega (arith, asked.less, ap one_if t))
      | inr f ↦ ([], rw f refl, subst (λ l. Permᴰ l []) (sym (none_left after end cs f)) Permᴰ.nil)
    ]
list_all-left_all after range batch end (suc fuel) cs h b =
    let asked = ask_all-AskedAll after range batch end cs h in
    let (cs', new) = ask_all range end cs in
    elim (Bool-cases (any_ready cs)) [
      | inl t ↦
          let (items, e, d) =
            list_all-left_all after range batch end fuel cs' h
              (omega (arith, asked.less, ap one_if t)) in
          (new ++ items, rw (t, e) refl, Permᴰ.trans asked.split (Permᴰ.append_left new d))
      | inr f ↦ ([], rw f refl, subst (λ l. Permᴰ l []) (sym (none_left after end cs f)) Permᴰ.nil)
    ]
