-- ===== src/Client/Thread/Report.antt =====
-- linux/main.c: what a receiver tells the server at its end.
use sync_clipboard.Prelude.Int.{pos, sub_ℕ, signed64, leb_ℤ, ◌≤ℤ◌, ℤ}
use sync_clipboard.Client.Message.{Object, build_file_relay_request, build_transfer_result}
use sync_clipboard.Client.State.{Client, TransferState, open_sock, suppress_clipboard_ms}
use sync_clipboard.Client.Thread.{
  Fetch, accept_file, give_up, may_relay, place, received, receiver_thread,
}
use sync_clipboard.Prelude.{
  &&-eq-true, Bool-cases, List, [], arith, codes, false, if-both, inl, inr, maybe-both, none, refl,
  some, starts_with, subst, sym, true, true_is_false, ℕ, ◌++◌, ◌∙◌, ◌∷◌, ◌≡◌, ◌⊎◌,
}

-- The relay is allowed: the level is 3 at least, and the size, as a signed number of 64 bits, is within
-- the server's limit.
abbrev pub IsRelayable : TransferState → Type 0
IsRelayable st = (pos 3 ≤ℤ st.eff_file_level) × (signed64 st.file_size ≤ℤ st.max_relay_size)

-- No connection, or no file over it.
abbrev pub Failed : Fetch → Type 0
Failed r = (r.sock ≡ none) ⊎ (r.size ≡ none)

-- What the receiver has sent at its end, and why.
pub data Reported (r : Fetch) (st : TransferState) (before : List Object)
    : List Object → Type 0 where
  received_file :
      (s size : ℕ)
      → r.sock ≡ some s
      → r.size ≡ some size
      → Reported r st before (
          before
          ++ build_transfer_result
              (some st.file_id)
              "p2p"
              true
              (sub_ℕ r.t_conn r.t0)
              (sub_ℕ r.t_done r.t_conn)
            ∷ [])
  asked_relay :
      Failed r
      → IsRelayable st
      → Reported r st before (before ++ build_file_relay_request st.file_id ∷ [])
  gave_up :
      Failed r
      → ¬ IsRelayable st
      → Reported r st before (
          before
          ++ build_transfer_result (some st.file_id) "failed" false (sub_ℕ r.t_end r.t0) (pos 0)
            ∷ [])

leb_ℤ-true : (a b : ℤ) → leb_ℤ a b ≡ true → a ≤ℤ b
leb_ℤ-true a b e = ground arith

leb_ℤ-false : (a b : ℤ) → leb_ℤ a b ≡ false → ¬ (a ≤ℤ b)
leb_ℤ-false a b e h = ground arith

may_relay-IsRelayable : (st : TransferState) → may_relay st ≡ true → IsRelayable st
unfolding may_relay
may_relay-IsRelayable st e =
    let (level, size) =
      &&-eq-true (leb_ℤ (pos 3) st.eff_file_level) (leb_ℤ (signed64 st.file_size) st.max_relay_size)
        e in
    (
      leb_ℤ-true (pos 3) st.eff_file_level level,
      leb_ℤ-true (signed64 st.file_size) st.max_relay_size size,
    )

may_relay-not : (st : TransferState) → may_relay st ≡ false → ¬ IsRelayable st
unfolding may_relay
may_relay-not st e (level, size) = elim (Bool-cases (leb_ℤ (pos 3) st.eff_file_level)) [
  | inr l ↦ leb_ℤ-false (pos 3) st.eff_file_level l level
  | inl l ↦ leb_ℤ-false (signed64 st.file_size) st.max_relay_size (rw l at e) size
]

module _ (r : Fetch) (st : TransferState) where
  place-sent : (c : Client) → (place r st c).sent ≡ c.sent
  unfolding place
  place-sent c =
      if-both (λ (d : Client). d.sent ≡ c.sent) (starts_with (codes "image/") st.mime_type) _ _
        (λ h. maybe-both (λ (d : Client). d.sent ≡ c.sent) _ _ _ (λ e. refl) (λ img e. refl))
        (λ h. refl)

  give_up-Reported :
      (c : Client) → st.success ≡ false → Failed r → Reported r st c.sent (give_up r st c).sent
  unfolding give_up
  give_up-Reported c fails why =
      let P : Client → Type 0 = λ d. Reported r st c.sent d.sent in
      if-both P st.success _ _ (λ h. absurd (true_is_false (sym h ∙ fails)))
        (λ h.
          if-both P (may_relay st) _ _ (λ m. asked_relay why (may_relay-IsRelayable st m))
            (λ m. gave_up why (may_relay-not st m)))

  accept_file-Reported :
      (c : Client) (s size : ℕ)
      → r.sock ≡ some s
      → r.size ≡ some size
      → Reported r st c.sent (accept_file r st c).sent
  unfolding accept_file suppress_clipboard_ms
  accept_file-Reported c s size came whole =
      subst
        (λ sent. Reported r st c.sent (
          sent
          ++ build_transfer_result (some st.file_id) "p2p" true (sub_ℕ r.t_conn r.t0)
              (sub_ℕ r.t_done r.t_conn)
            ∷ []))
        (sym (place-sent _)) (received_file s size came whole)

  -- A receiver whose state was not successful before gives one message more to `queue_send`: the result
  -- "p2p" exactly where a connection came about and the file went through; else the request for the
  -- relay, if the level is 3 at least and the file no larger than the limit; else the result "failed".
  pub receiver_thread-Reported :
      (c : Client) → st.success ≡ false → Reported r st c.sent (receiver_thread r st c).sent
  unfolding receiver_thread received
  receiver_thread-Reported c fails =
      let P : Client → Type 0 = λ d. Reported r st c.sent d.sent in
      maybe-both P r.sock _ _ (λ e. give_up-Reported c fails (inl e))
        (λ s e.
          maybe-both P r.size _ _ (λ n. give_up-Reported _ fails (inr n))
            (λ size n. accept_file-Reported (open_sock (some s) c) s size e n))
