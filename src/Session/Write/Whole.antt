-- ===== src/Session/Write/Whole.antt =====
-- Which parts `do_write` sends.
use k_mqttd.Base.{
  ℕ, ◌+◌, ◌<◌, ◌≤◌, ◌≡◌, ◌⊎◌, ◌↔◌, inl, refl, ap, ◌∙◌, some, List, [], length, take, drop, leb, ret,
  Bool, demand, ◌>>◌, arith, true, false, ge→ltb, gt→leb, pos, sym,
}
use k_mqttd.Protocol.Message
use k_mqttd.Protocol.Message.{Message}
use k_mqttd.Session.Message.Buffer.{take_all}
use k_mqttd.Session.Write.{
  send_buffer_size, sends, returned, part_size, do_write, on_written, write_encoded, write,
}

part_size-fits :
    (size n : ℕ)
    → n < size
    → (leb (n + part_size size n) size ≡ true) ↔ ((n ≡ 0) ⊎ (n + send_buffer_size ≤ size))
unfolding part_size
part_size-fits size n inside = ground arith

part_size-whole : (size : ℕ) → part_size size 0 ≡ size
unfolding part_size
part_size-whole size = ground arith

do_write_inside :
    (buf : List ℕ) (n : ℕ) (fits : Bool)
    → n < length buf
    → leb (n + part_size (length buf) n) (length buf) ≡ fits
    → do_write buf n
      ≡ (do demand fits; ret (sends n (take (part_size (length buf) n) (drop n buf))))
unfolding do_write
do_write_inside buf n fits inside e = rw (e, gt→leb (length buf) n inside) refl

demanded {ℓ} : {A : Type ℓ} (fits : Bool) (a : A) → ((demand fits >> ret a) ≡ ret a) ↔ (fits ≡ true)
demanded true a = (λ e. refl, λ e. refl)
demanded false a = (λ e. absurd (cc e), λ e. absurd (cc e))

-- Where bytes are left to send, `do_write` has defined behaviour exactly if none have been sent, or if
-- at least `SOCKET_SEND_BUFFER_SIZE` bytes are left.
pub do_write-defined :
    (buf : List ℕ) (n : ℕ)
    → n < length buf
    → (do_write buf n ≡ ret (sends n (take (part_size (length buf) n) (drop n buf))))
      ↔ ((n ≡ 0) ⊎ (n + send_buffer_size ≤ length buf))
do_write-defined buf n inside =
    let fits = leb (n + part_size (length buf) n) (length buf) in
    let (to, from) = part_size-fits (length buf) n inside in
    let part = sends n (take (part_size (length buf) n) (drop n buf)) in
    let (known, defined) = demanded fits part in
    let run = do_write_inside buf n fits inside refl in
    (λ e. to (known (sym run ∙ e)), λ h. run ∙ defined (from h))

do_write_whole : (buf : List ℕ) → 0 < length buf → do_write buf 0 ≡ ret (sends 0 buf)
do_write_whole buf some_left =
    (do_write-defined buf 0 some_left).1 (inl refl)
    ∙ ap (λ n. ret (sends 0 n)) (ap (λ k. take k buf) (part_size-whole (length buf)) ∙ take_all buf)

on_written_whole : (buf : List ℕ) → on_written buf 0 (some (length buf)) ≡ ret returned
unfolding on_written
on_written_whole buf = rw (ge→ltb (0 + length buf) (length buf) (omega arith)) refl

-- Where `encode` does not fail, `write` sends the whole encoding in one piece, never in parts of
-- `SOCKET_SEND_BUFFER_SIZE`, returns 0, and its function is not called when all of it has been sent.
pub write_whole :
    (msg : Message) (n : ℕ)
    → (Message.encode msg []).result ≡ pos n
    → 0 < length (Message.encode msg []).buf
    → (write msg ≡ ret (pos 0, some (sends 0 (Message.encode msg []).buf)))
      × (on_written (Message.encode msg []).buf 0 (some (length (Message.encode msg []).buf))
          ≡ ret returned)
unfolding write
write_whole msg n encoded some_left =
    let buf = (Message.encode msg []).buf in
    let run = do_write_whole buf some_left in
    (rw (encoded, write_encoded, run) refl, on_written_whole buf)
