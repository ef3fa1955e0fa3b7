-- ===== src/Client/Buffer/Messages.antt =====
-- The fragments of messages that follow each other become those messages.
use sync_clipboard.Prelude.{
  Bool, Bool-cases, Bytes, List, [], ap, append_assoc, false, inl, inr, length, ltb, map, refl, sym,
  true, ℕ, ◌++◌, ◌+◌, ◌∙◌, ◌∷◌, ◌≡◌,
}
use sync_clipboard.Client.Buffer.{Arrival, RecvBuf, message, no_buffer, receive, store}
use sync_clipboard.Client.Buffer.Growth.{new_size-done}

-- A message as it comes: the fragments before the last, and the last.
pub record Parts : Type 0 where
  pub before : List Bytes
  pub last : Bytes

abbrev pub concat : List Bytes → Bytes
concat [] = []
concat (f ∷ fs) = f ++ concat fs

abbrev pub joined : Parts → Bytes
joined parts = concat parts.before ++ parts.last

-- What the last fragment of a message leads to, after the others.
unfoldable pub receive_parts : List Bytes → Bytes → RecvBuf → Arrival × RecvBuf
unfolding receive
receive_parts [] last buf = receive true true last buf
receive_parts (f ∷ fs) last buf = receive_parts fs last (receive true false f buf).1

unfoldable pub receive_all : List Parts → RecvBuf → List Arrival
unfolding receive_parts
receive_all [] buf = []
receive_all (p ∷ ps) buf =
    let got = receive_parts p.before p.last buf in got.0 ∷ receive_all ps got.1

-- While there is memory a fragment is appended, whatever it takes to make room.
receive_lem :
    (final : Bool) (fragment : Bytes) (buf : RecvBuf)
    → (cap : ℕ) × (receive true final fragment buf
        ≡ store final fragment (record buf { cap = cap }))
unfolding receive
receive_lem final fragment buf =
    elim (Bool-cases (ltb buf.cap (length buf.text + length fragment))) [
      | inr e ↦ (buf.cap, rw (e, receive) refl)
      | inl e ↦
          let (c, found, enough, wider) =
            new_size-done buf.cap (length buf.text + length fragment) in
          (c, rw (e, found, receive) refl)
    ]

abbrev whole_message : Bytes → Arrival
whole_message text = message text (length text)

receive_parts-message :
    (fs : List Bytes) (last : Bytes) (buf : RecvBuf)
    → let text = buf.text ++ (concat fs ++ last) in
      ((receive_parts fs last buf).0 ≡ whole_message text)
      × ((receive_parts fs last buf).1.text ≡ [])
unfolding receive_parts
receive_parts-message [] last buf =
    let (c, e) = receive_lem true last buf in (ap (λ r. r.0) e, ap (λ r. r.1.text) e)
receive_parts-message (f ∷ fs) last buf =
    let (c, e) = receive_lem false f buf in
    let next : RecvBuf = (receive true false f buf).1 in
    let appended : next.text ≡ buf.text ++ f = ap (λ r. r.1.text) e in
    let r = receive_parts-message fs last next in
    (
      r.0
          ∙ ap whole_message (
              ap (λ t. t ++ (concat fs ++ last)) appended
              ∙ append_assoc buf.text f (concat fs ++ last)
              ∙ ap (◌++◌ buf.text) (sym (append_assoc f (concat fs) last))),
      r.1,
    )

receive_all-empty :
    (ps : List Parts) (buf : RecvBuf)
    → buf.text ≡ []
    → receive_all ps buf ≡ map (λ p. whole_message (joined p)) ps
unfolding receive_all
receive_all-empty [] buf e = refl
receive_all-empty (p ∷ ps) buf e =
    let r = receive_parts-message p.before p.last buf in
    λ i.
      (r.0 ∙ ap (λ t. whole_message (t ++ joined p)) e) i
      ∷ receive_all-empty ps (receive_parts p.before p.last buf).1 r.1 i

-- While there is memory, messages that come one after another, each in any number of fragments, are
-- handed over as they were sent: the fragments of each in their order, and nothing of another one.
pub receive_all_lem :
    (ps : List Parts)
    → receive_all ps no_buffer ≡ map (λ p. message (joined p) (length (joined p))) ps
receive_all_lem ps = receive_all-empty ps no_buffer refl
