-- ===== src/Kinetic/Writing.antt =====
-- The end of a Write of src/oio/blob/kinetic/coro/CoroutineClient.cpp. The consumer may have answered the
-- exchange before its Write fails: abort_rpc then signals it a second time.
use oio_sds_cpp.Prelude.{
  ℕ, ◌==◌, ◌≡◌, refl, ap, Bool-cases, true, false, if◌then◌else◌, List, [], ◌∷◌, ◌++◌, Option,
  Option-cases, some, none, inl, inr, subst, arith,
}
use oio_sds_cpp.Api.{SysError}
use oio_sds_cpp.Kinetic.Client.{
  Pending, error, Client, find_sequence, erase_sequence, pop_rpc, signal, abort_rpc, is_no_error,
  end_write, Event, written,
}
use oio_sds_cpp.Kinetic.Accounting.{count_signals-append, count_pending-erase, Within-erase}
use oio_sds_cpp.Kinetic.Owned.{Own, All-find}
use oio_sds_cpp.Kinetic.Signals.{Inv, Kept}

-- Whether an exchange `p` whose Write failed is one named `id` that is no longer pending.
abbrev pub signalled_again : ℕ → Pending → Option Pending → ℕ
signalled_again id p none = if p.id == id then 1 else 0
signalled_again id p (some q) = 0

-- How often the end of a Write signals again an exchange named `id` that was signalled already.
abbrev pub again : ℕ → SysError → Option Pending → List Pending → ℕ
again id e none ps = 0
again id e (some p) ps =
    if is_no_error e then 0 else signalled_again id p (find_sequence p.sequence ps)

abbrev pub doubled : ℕ → Client → Event → ℕ
doubled id c (written e) = if c.online then again id e c.writing c.pending else 0
doubled id c _ = 0

abort_found :
    (c : Client) (p q : Pending) (e : SysError)
    → find_sequence p.sequence c.pending ≡ some q
    → abort_rpc c p e ≡ record c {
      pending = erase_sequence p.sequence c.pending;
      signals = c.signals ++ (p.id, error e) ∷ [];
    }
unfolding abort_rpc pop_rpc
abort_found c p q e h = ground arith

abort_missing :
    (c : Client) (p : Pending) (e : SysError)
    → find_sequence p.sequence c.pending ≡ none
    → abort_rpc c p e ≡ signal c p (error e)
unfolding abort_rpc pop_rpc
abort_missing c p e h = ground arith

-- The client once its Write has returned.
abbrev returned : Client → Client
returned c = record c { writing = none }

returned-Kept : (c : Client) (id : ℕ) → Inv c → Kept id 0 c (returned c)
returned-Kept c id v = record {
  inv = record { ordered = v.ordered; idle = v.idle; awake = v.awake; own = tt };
  same = omega arith;
}

aborted-Kept :
    (c : Client) (id : ℕ) (e : SysError) (p : Pending)
    → Inv c
    → c.online ≡ true
    → c.writing ≡ some p
    → Kept id
        (signalled_again id p (find_sequence p.sequence c.pending))
        c
        (abort_rpc (returned c) p e)
aborted-Kept c id e p v o w = elim (Option-cases (find_sequence p.sequence c.pending)) [
  | inl h ↦
      rw (h, abort_missing (returned c) p e h)
        (record {
          inv = record { ordered = v.ordered; idle = v.idle; awake = v.awake; own = tt };
          same = omega (arith, count_signals-append id c.signals ((p.id, error e) ∷ []));
        })
  | inr (q, h) ↦
      let own = subst (λ w. Own w c.pending) w v.own in
      let found =
        All-find (λ q. q.sequence ≡ p.sequence → q.id ≡ p.id) p.sequence c.pending q own h in
      let same_id : q.id ≡ p.id = found.0 found.1 in
      rw (h, abort_found (returned c) p q e h)
        (record {
          inv = record {
            ordered = Within-erase p.sequence 0 c.next_sequence c.pending v.ordered;
            idle = λ x. absurd cc;
            awake = v.awake;
            own = tt;
          };
          same = omega (
            arith,
            count_signals-append id c.signals ((p.id, error e) ∷ []),
            count_pending-erase id p.sequence c.pending q h,
            ap {B = ℕ} (λ i. if i == id then 1 else 0) same_id,
          );
        })
]

not_writing : (c : Client) (e : SysError) → c.writing ≡ none → end_write c e ≡ c
unfolding end_write
not_writing c e h = ground arith

ended :
    (c : Client) (e : SysError) (p : Pending)
    → c.writing ≡ some p
    → is_no_error e ≡ true
    → end_write c e ≡ returned c
unfolding end_write
ended c e p w t = ground arith

ended_badly :
    (c : Client) (e : SysError) (p : Pending)
    → c.writing ≡ some p
    → is_no_error e ≡ false
    → end_write c e ≡ abort_rpc (returned c) p e
unfolding end_write
ended_badly c e p w f = ground arith

written_by :
    (c : Client) (id : ℕ) (e : SysError) (w : Option Pending)
    → Inv c
    → c.online ≡ true
    → c.writing ≡ w
    → Kept id (again id e w c.pending) c (end_write c e)
unfolding end_write
written_by c id e none v o w = rw (not_writing c e w) (record { inv = v; same = omega arith })
written_by c id e (some p) v o w = elim (Bool-cases (is_no_error e)) [
  | inl t ↦ rw (t, ended c e p w t) (returned-Kept c id v)
  | inr f ↦ rw (f, ended_badly c e p w f) (aborted-Kept c id e p v o w)
]

pub written-Kept :
    (c : Client) (id : ℕ) (e : SysError)
    → Inv c
    → c.online ≡ true
    → Kept id (again id e c.writing c.pending) c (end_write c e)
written-Kept c id e v o = written_by c id e c.writing v o refl
