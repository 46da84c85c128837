-- ===== src/Http/Wire.antt =====
-- The sockets of src/utils/net.cpp are channels for the HTTP client: their kernel takes any number of the
-- bytes it is offered at each call.
use oio_sds_cpp.Prelude.{
  ℕ, zero, suc, ◌-◌, ◌≡◌, sym, ◌∙◌, ap, Bool, true, false, List, [], ◌∷◌, ◌++◌, Bytes, length,
  concat, min, arith, append_assoc, append-nil,
}
use oio_sds_cpp.Net.{Outcome, done, blocked, aborted, failed}
use oio_sds_cpp.Net.Sending.{WriteEvent, wrote, fails, Sent, send_iov, WriteConforms}
use oio_sds_cpp.Net.Gather.{Wired, Unsent, send_iov-Wired}
use oio_sds_cpp.Http.Channel.{Channel, Lawful}

-- A kernel that is offered `left` bytes takes no more of them.
capped : ℕ → List WriteEvent → List WriteEvent
capped zero es = es
capped (suc left) [] = []
capped (suc left) (wrote n ∷ es) =
    wrote (min n (suc left)) ∷ capped (suc left - min n (suc left)) es
capped (suc left) (fails e late poll ∷ es) = fails e late poll ∷ capped (suc left) es

capped-WriteConforms : (left : ℕ) (es : List WriteEvent) → WriteConforms left (capped left es)
unfolding capped
capped-WriteConforms zero es = tt
capped-WriteConforms (suc left) [] = tt
capped-WriteConforms (suc left) (wrote n ∷ es) =
    (omega arith, capped-WriteConforms (suc left - min n (suc left)) es)
capped-WriteConforms (suc left) (fails e late poll ∷ es) = capped-WriteConforms (suc left) es

abbrev is_done : Outcome → Bool
is_done done = true
is_done _ = false

sent_by : Bytes × List WriteEvent → List Bytes → Sent
unfolding capped
sent_by (wire, es) iov = send_iov iov (capped (length (concat iov)) es)

-- What was written, and what the kernel answers to the calls to come.
unfoldable pub socket_channel : Channel
unfolding sent_by
socket_channel = record {
  State = Bytes × List WriteEvent;
  wire = λ s. s.0;
  send = λ s iov. let r = sent_by s iov in ((s.0 ++ r.wire, r.left), is_done r.outcome);
}

nothing_left : (o : Outcome) (rest : Bytes) → is_done o ≡ true → Unsent o rest → rest ≡ []
nothing_left done rest t u = u
nothing_left blocked rest t u = cc
nothing_left aborted rest t u = cc
nothing_left (failed e) rest t u = cc

sent_by-Wired :
    (s : Bytes × List WriteEvent) (iov : List Bytes) → Wired (concat iov) (sent_by s iov)
unfolding sent_by
sent_by-Wired (wire, es) iov = send_iov-Wired iov _ (capped-WriteConforms (length (concat iov)) es)

pub socket_channel-Lawful : Lawful socket_channel
unfolding socket_channel
socket_channel-Lawful = record {
  all = λ s iov t.
      let (rest, e, u) = sent_by-Wired s iov in
      let none_left = nothing_left (sent_by s iov).outcome rest t u in
      ap (λ l. s.0 ++ l)
        (sym (append-nil (sent_by s iov).wire)
          ∙ ap (λ l. (sent_by s iov).wire ++ l) (sym none_left)
          ∙ e);
  part = λ s iov.
      let (rest, e, u) = sent_by-Wired s iov in
      (rest, append_assoc s.0 (sent_by s iov).wire rest ∙ ap (λ l. s.0 ++ l) e);
}
