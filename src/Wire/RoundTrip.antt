-- ===== src/Wire/RoundTrip.antt =====
-- A frame that is received is what was sent.
use sync_clipboard.Prelude.{
  All, Bytes, [], ap, append-nil, arith, drop, length, length-append, length-take, refl, replicate,
  same, same_refl, some, sym, take, take-add, take-append, true, ℕ, ◌++◌, ◌+◌, ◌<◌, ◌^◌, ◌∙◌, ◌∷◌,
  ◌≡◌, ◌≤◌,
}
use sync_clipboard.Net.Moves.{
  Effect, Moves, Ready, ask-Moves, bind-Moves, pure-Moves, recv_all-Moves, require-Moves, untouched,
}
use sync_clipboard.Wire.{
  FtFileInfo, c_string, check_size, ft_magic, read_size, recv_body, recv_content, recv_file,
  recv_header, recv_id, recv_size, send_file, size_bytes, sized,
}
use sync_clipboard.Wire.Size.{length-size_bytes, read_size-size_bytes}
use sync_clipboard.Wire.Frame.{frame, header, id_bytes, length-id_bytes, send_file-Moves}
use sync_clipboard.Net.{World, ask, done, pure, recv_all, require, ◌>>◌}

check_size-Moves :
    (fs max_size : ℕ) → 0 < fs → fs ≤ max_size → Moves (check_size max_size fs) 0 [] [] untouched tt
unfolding check_size
check_size-Moves fs max_size pos le = require-Moves _ (ground arith)

sized-Moves :
    (fid : Bytes) (fs fs' max_size : ℕ)
    → fs' ≡ fs
    → 0 < fs
    → fs ≤ max_size
    → Moves {A = Bytes × ℕ} (sized max_size fid fs') 0 [] [] untouched (c_string fid, fs)
unfolding sized
sized-Moves fid fs fs' max_size e pos le = rw e (
    bind-Moves (check_size max_size fs) (λ _. pure (c_string fid, fs))
      (check_size-Moves fs max_size pos le) (pure-Moves _) refl refl refl)

recv_size-Moves :
    (fid : Bytes) (fs max_size : ℕ)
    → 0 < fs
    → fs ≤ max_size
    → fs < 2 ^ 64
    → Moves {A = Bytes × ℕ}
        (recv_size max_size fid)
        8
        (size_bytes fs)
        []
        untouched
        (c_string fid, fs)
unfolding recv_size
recv_size-Moves fid fs max_size pos le small =
    bind-Moves (recv_all 8) (λ sb. sized max_size fid (read_size 0 sb))
      (recv_all-Moves 8 (size_bytes fs) (omega arith) (length-size_bytes fs))
      (sized-Moves fid fs (read_size 0 (size_bytes fs)) max_size (read_size-size_bytes fs small) pos
        le)
      refl (append-nil _) refl

recv_id-Moves :
    (fid : Bytes) (fs max_size : ℕ)
    → 0 < fs
    → fs ≤ max_size
    → fs < 2 ^ 64
    → Moves {A = Bytes × ℕ}
        (recv_id max_size)
        44
        (id_bytes fid ++ size_bytes fs)
        []
        untouched
        (c_string (id_bytes fid), fs)
unfolding recv_id
recv_id-Moves fid fs max_size pos le small =
    bind-Moves (recv_all 36) (recv_size max_size)
      (recv_all-Moves 36 (id_bytes fid) (omega arith) (length-id_bytes fid))
      (recv_size-Moves (id_bytes fid) fs max_size pos le small) refl refl refl

pub recv_header-Moves :
    (fid : Bytes) (fs max_size : ℕ)
    → 0 < fs
    → fs ≤ max_size
    → fs < 2 ^ 64
    → Moves {A = Bytes × ℕ}
        (recv_header max_size)
        48
        (header fid fs)
        []
        untouched
        (c_string (id_bytes fid), fs)
unfolding recv_header
recv_header-Moves fid fs max_size pos le small =
    bind-Moves (recv_all 4) (λ magic. require (same magic ft_magic) >> recv_id max_size)
      (recv_all-Moves 4 ft_magic (omega arith) refl)
      (bind-Moves (require (same ft_magic ft_magic)) (λ _. recv_id max_size)
        (require-Moves (same ft_magic ft_magic) (same_refl ft_magic))
        (recv_id-Moves fid fs max_size pos le small) refl refl refl)
      refl refl refl

pub recv_file-Moves :
    (fid bs : Bytes) (max_size : ℕ)
    → 0 < length bs
    → length bs ≤ max_size
    → length bs < 2 ^ 31
    → Moves
        (recv_file max_size)
        (48 + length bs)
        (frame fid bs)
        []
        untouched
        (record { file_id = c_string (id_bytes fid); file_size = length bs; content = some bs })
unfolding recv_file recv_body recv_content
recv_file-Moves fid bs max_size pos le small =
    bind-Moves (recv_header max_size) (recv_body)
      (recv_header-Moves fid (length bs) max_size pos le (omega arith))
      (bind-Moves ask
        (λ allocated. require allocated >> recv_content (c_string (id_bytes fid)) (length bs))
        ask-Moves
        (bind-Moves (require true) (λ _. recv_content (c_string (id_bytes fid)) (length bs))
          (require-Moves true refl)
          (bind-Moves (recv_all (length bs))
            (λ b. pure (record {
              file_id = c_string (id_bytes fid);
              file_size = length bs;
              content = some b;
            }))
            (recv_all-Moves (length bs) bs small refl) (pure-Moves _) refl (append-nil bs) refl)
          refl refl refl)
        refl refl refl)
      (omega arith) refl refl

c_string_lem : (s : Bytes) → All (λ c. 0 < c) s → c_string s ≡ s
c_string_lem [] h = refl
c_string_lem (c ∷ cs) (h, hs) = ground (arith, c_string_lem cs hs)

-- An id of 36 characters is sent and read as it is.
pub id_bytes_lem : (fid : Bytes) → length fid ≡ 36 → id_bytes fid ≡ fid
id_bytes_lem fid h =
    let padded : Bytes = fid ++ replicate 64 0 in
    ap (take 36) (sym (take-add 36 28 64 padded refl))
    ∙ take-append 36 (take 36 padded) (take 28 (drop 36 padded))
        (omega (arith, length-take 36 padded, length-append fid (replicate 64 0)))
    ∙ take-append 36 fid (replicate 64 0) h

-- The file whose id has the 36 characters of a UUID.
abbrev pub file : Bytes → Bytes → FtFileInfo
file fid bs = record { file_id = fid; file_size = length bs; content = some bs }

-- `ft_send_file` on one end and `ft_recv_file` on the other: for a file of 1 to `max_size` bytes,
-- below 2 GiB, and whatever pieces the two kernels move, both ends return 0, the receiver holds the
-- id, the size and the bytes of the sender, and it has read exactly the frame.
pub recv_file-send_file :
    (fid bs rest : Bytes) (max_size : ℕ) (sender receiver : World)
    → length fid ≡ 36
    → All (λ c. 0 < c) fid
    → 0 < length bs
    → length bs ≤ max_size
    → length bs < 2 ^ 31
    → Ready (48 + length bs) sender
    → Ready (48 + length bs) receiver
    → sender.outbox ≡ []
    → receiver.inbox ≡ (send_file (file fid bs) sender).1.outbox ++ rest
    → ((send_file (file fid bs) sender).0 ≡ done tt)
      × ((recv_file max_size receiver).0 ≡ done (file fid bs))
      × ((recv_file max_size receiver).1.inbox ≡ rest)
recv_file-send_file fid bs rest max_size sender receiver id_len text nonempty le small rs rr empty
      joined =
    finish ((send_file-Moves fid bs (length bs) small).runs sender 0 sender.inbox (spare rs) refl)
  where
    spare : {w : World} → Ready (48 + length bs) w → Ready (48 + length bs + 0) w
    spare r = record { plenty = (r.plenty.0, omega (arith, r.plenty.1)); granted = r.granted }

    same_info : c_string (id_bytes fid) ≡ fid
    same_info = ap c_string (id_bytes_lem fid id_len) ∙ c_string_lem fid text

    received :
        receiver.inbox ≡ frame fid bs ++ rest
        → ((recv_file max_size receiver).0 ≡ done (file fid bs))
          × ((recv_file max_size receiver).1.inbox ≡ rest)
    received e =
        let (w, r, eff, _, _) =
          (recv_file-Moves fid bs max_size nonempty le small).runs receiver 0 rest (spare rr) e in
        (
          ap (λ p. p.0) r
              ∙ ap (λ i. done (record { file_id = i; file_size = length bs; content = some bs }))
                  same_info,
          ap (λ p. p.1.inbox) r ∙ eff.read,
        )

    finish :
        (w' : World) × (send_file (file fid bs) sender ≡ (done tt, w'))
          × Effect sender.inbox (frame fid bs) sender w'
          × (w'.files ≡ untouched sender.files)
          × Ready 0 w'
        → ((send_file (file fid bs) sender).0 ≡ done tt)
          × ((recv_file max_size receiver).0 ≡ done (file fid bs))
          × ((recv_file max_size receiver).1.inbox ≡ rest)
    finish (w, s, eff, _, _) =
        let (a, b) = received (
          joined
          ∙ ap (λ p. p.1.outbox ++ rest) s
          ∙ ap (λ o. o ++ rest) (eff.written ∙ ap (λ o. o ++ frame fid bs) empty)) in
        (ap (λ p. p.0) s, a, b)
