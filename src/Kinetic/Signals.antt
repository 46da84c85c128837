-- ===== src/Kinetic/Signals.antt =====
-- What each call of a client does to its invariant and to what is accounted for, of src/oio/blob/kinetic/coro/CoroutineClient.cpp.
use oio_sds_cpp.Prelude.{
  ℕ, zero, suc, ◌+◌, ◌≤◌, ◌==◌, ◌≡◌, refl, ◌∙◌, ap, true, false, if◌then◌else◌, List, [], ◌∷◌, ◌++◌,
  some, none, length, get_elem?, arith, length-append, some, Option-cases, inl, inr,
}
use oio_sds_cpp.Api.{SysError, econnreset}
use oio_sds_cpp.Kinetic.Client.{
  Pending, error, reply, Client, find_sequence, erase_sequence, pop_rpc, signal, abort_rpc,
  connected_as, manage, start_rpc, wake, abort_all_rpc, rpc, new_client, Event, calls,
}
use oio_sds_cpp.Kinetic.Owned.{Own, Own-erase, Own-last}
use oio_sds_cpp.Kinetic.Accounting.{
  count_pending, accounted, Within, count_pending-append, count_signals-append, count_signals-map,
  Within-append, Within-erase, count_pending-erase, Within-raise, abort_rpc_lem,
  abort_rpc-accounted,
}

pub record Inv (c : Client) : Type 0 where
  pub ordered : Within 0 c.next_sequence c.pending
  pub idle : c.online ≡ false → c.pending ≡ []
  pub awake : length c.waiting ≤ c.to_agent
  pub own : Own c.writing c.pending

pub new_client-Inv : (now : ℕ) → Inv (new_client now)
new_client-Inv now = record {
  ordered = omega arith;
  idle = λ e. refl;
  awake = omega arith;
  own = tt;
}

-- The number of calls of RPC with the exchange `id` that an event makes.
abbrev pub called : ℕ → Event → ℕ
called id (calls j now) = if j == id then 1 else 0
called id _ = 0

-- What an event that started at `c` may leave: the invariant, and every exchange accounted for.
pub record Kept (id n : ℕ) (c c' : Client) : Type 0 where
  pub inv : Inv c'
  pub same : accounted id c' ≡ accounted id c + n

pub calls-Kept :
    (c : Client) (id j now : ℕ) → Inv c → Kept id (called id (calls j now)) c (rpc c j now)
unfolding rpc
calls-Kept c id j now v = record {
  inv = record {
    ordered =
        Within-raise 0 c.next_sequence (c.next_sequence + 1) c.pending (omega arith) v.ordered;
    idle = v.idle;
    awake = omega (arith, v.awake, length-append c.waiting _);
    own = v.own;
  };
  same = omega (arith, count_pending-append id c.waiting _);
}

connected-Kept : (c : Client) (id cnx : ℕ) → Inv c → Kept id 0 c (connected_as c cnx)
connected-Kept c id zero v = record { inv = v; same = omega arith }
connected-Kept c id (suc n) v = record {
  inv = record { ordered = v.ordered; idle = v.idle; awake = v.awake; own = v.own };
  same = omega arith;
}

pub Kept-trans : (id m n : ℕ) (c d e : Client) → Kept id m c d → Kept id n d e → Kept id (m + n) c e
Kept-trans id m n c d e a b = record { inv = b.inv; same = omega (arith, a.same, b.same) }

manage_found :
    (c : Client) (id ack : ℕ) (p : Pending)
    → Inv c
    → c.online ≡ true
    → find_sequence ack c.pending ≡ some p
    → Kept id 0 c (signal (record c { pending = erase_sequence ack c.pending }) p reply)
manage_found c id ack p v o h = record {
  inv = record {
    ordered = Within-erase ack 0 c.next_sequence c.pending v.ordered;
    idle = λ e. absurd (cc);
    awake = v.awake;
    own = Own-erase c.writing ack c.pending v.own;
  };
  same = omega (
    arith,
    count_signals-append id c.signals ((p.id, reply) ∷ []),
    count_pending-erase id ack c.pending p h,
  );
}

manage_missing : (c : Client) (ack : ℕ) → find_sequence ack c.pending ≡ none → manage c 0 ack ≡ c
unfolding manage pop_rpc
manage_missing c ack e = ground arith

manage_hit :
    (c : Client) (ack : ℕ) (p : Pending)
    → find_sequence ack c.pending ≡ some p
    → manage c 0 ack ≡ signal (record c { pending = erase_sequence ack c.pending }) p reply
unfolding manage pop_rpc
manage_hit c ack p e = ground arith

answered : (c : Client) (id ack : ℕ) → Inv c → c.online ≡ true → Kept id 0 c (manage c 0 ack)
answered c id ack v o = elim (Option-cases (find_sequence ack c.pending)) [
  | inl e ↦ rw (manage_missing c ack e) (record { inv = v; same = omega arith })
  | inr (p, e) ↦ rw (manage_hit c ack p e) (manage_found c id ack p v o e)
]

pub manage-Kept :
    (c : Client) (id cnx ack : ℕ) → Inv c → c.online ≡ true → Kept id 0 c (manage c cnx ack)
unfolding manage
manage-Kept c id zero ack v o = answered c id ack v o
manage-Kept c id (suc n) ack v o =
    let k = connected-Kept c id (suc n) v in
    Kept-trans id 0 0 c (connected_as c (suc n)) _ k
      (answered (connected_as c (suc n)) id ack k.inv o)

pub disconnects-Kept :
    (c : Client) (id : ℕ)
    → Inv c
    → c.writing ≡ none
    → Kept id 0 c (record (abort_all_rpc c) { online = false })
unfolding abort_all_rpc
disconnects-Kept c id v w = record {
  inv = record { ordered = omega arith; idle = λ e. refl; awake = omega arith; own = rw w tt };
  same = omega (
    arith,
    count_signals-append id c.signals _,
    count_signals-map id (error econnreset) (c.pending ++ c.waiting),
    count_pending-append id c.pending c.waiting,
  );
}

pub abort-Kept :
    (c : Client) (id i : ℕ) (p : Pending) (err : SysError)
    → Inv c
    → c.online ≡ true
    → get_elem? c.pending i ≡ some p
    → Kept id 0 c (abort_rpc c p err) × ((abort_rpc c p err).online ≡ true)
abort-Kept c id i p err v o h =
    let (same, ordered) = abort_rpc-accounted c i p err id v.ordered h in
    let e = abort_rpc_lem c i p err v.ordered h in
    (
      record {
        inv = record {
          ordered = rw (ap (λ d. d.next_sequence) e) ordered;
          idle = λ q. absurd (cc (ap (λ d. d.online) e));
          awake = rw e v.awake;
          own = rw e (Own-erase c.writing p.sequence c.pending v.own);
        };
        same = omega (arith, same);
      },
      ap (λ d. d.online) e ∙ o,
    )

wake_empty : (c : Client) → c.waiting ≡ [] → wake c ≡ c
unfolding wake
wake_empty c h = ground arith

wake-start_rpc :
    (c : Client) (p : Pending) (rest : List Pending)
    → c.waiting ≡ p ∷ rest
    → wake c ≡ start_rpc (record c { waiting = rest }) p
unfolding wake
wake-start_rpc c p rest h = ground arith

start_rpc-Kept :
    (c : Client) (id n : ℕ) (p : Pending) (rest : List Pending)
    → Inv c
    → c.online ≡ true
    → c.to_agent ≡ suc n
    → c.waiting ≡ p ∷ rest
    → Kept id 0 c (start_rpc (record c { to_agent = n; waiting = rest }) p)
unfolding start_rpc
start_rpc-Kept c id n p rest v o h w = record {
  inv = record {
    ordered =
        Within-append 0 c.next_sequence c.pending (record p { sequence = c.next_sequence })
          v.ordered refl;
    idle = λ q. absurd (cc);
    awake = omega (arith, v.awake, ap length w);
    own = Own-last 0 c.pending (record p { sequence = c.next_sequence }) v.ordered;
  };
  same = omega (arith, count_pending-append id c.pending _, ap (count_pending id) w);
}

pub wake-Kept :
    (c : Client) (id : ℕ) (n : ℕ) (ps : List Pending)
    → Inv c
    → c.online ≡ true
    → c.to_agent ≡ suc n
    → c.waiting ≡ ps
    → Kept id 0 c (wake (record c { to_agent = n }))
wake-Kept c id n [] v o h w = rw (wake_empty (record c { to_agent = n }) w) (record {
  inv = record {
    ordered = v.ordered;
    idle = v.idle;
    awake = omega (arith, ap length w);
    own = v.own;
  };
  same = omega arith;
})
wake-Kept c id n (p ∷ rest) v o h w =
    rw (wake-start_rpc (record c { to_agent = n }) p rest w) (start_rpc-Kept c id n p rest v o h w)
