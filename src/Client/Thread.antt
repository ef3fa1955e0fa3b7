-- ===== src/Client/Thread.antt =====
-- linux/main.c: `receiver_thread` and `sender_thread`, from the count of active transfers to the end.
-- What the transfer itself did is given by the answers: the socket that `ft_lan_transfer_auth`
-- returned and what `ft_recv_file_to_path` or `ft_send_file` made of it.
pub mod Report
use sync_clipboard.Prelude.Int.{ℤ, pos, signed64, sub_ℕ, leb_ℤ}
use sync_clipboard.Client.Message.{build_file_relay_request, build_transfer_result}
use sync_clipboard.Client.State.{
  Client, TransferState, as_list, file_set, image_set, open_sock, put, queue, suppress_clipboard_ms,
}
use sync_clipboard.Prelude.{
  Bool, Bytes, List, Option, [], codes, false, if◌then◌else◌, maybe, some, starts_with, suc, take,
  true, ℕ, ◌&&◌, ◌++◌, ◌+◌, ◌-◌, ◌∷◌,
}

-- The socket, the size of the file that was received, its SHA-256 in digits (`none` if it cannot be
-- opened), its bytes as an image, and the clock at the start, once connected, once received and at the
-- end.
pub record Fetch : Type 0 where
  pub sock : Option ℕ
  pub size : Option ℕ
  pub hash : Option Bytes
  pub image : Option Bytes
  pub t0 : ℕ
  pub t_conn : ℕ
  pub t_done : ℕ
  pub t_end : ℕ

unfoldable pub thread_begin : Client → Client
thread_begin c = record c { active = suc c.active }

abbrev pub tmp_path : TransferState → Bytes
tmp_path st = take 511 (codes "/tmp/syncclip_" ++ st.file_name)

-- An image is put on the clipboard if it could be read back; any other file by its path.
unfoldable pub place : Fetch → TransferState → Client → Client
place r st c =
    let image : Client = maybe r.image c (λ img. put (image_set img st.mime_type) c) in
    if starts_with (codes "image/") st.mime_type then image else put (file_set (tmp_path st)) c

-- A file has come in.
unfoldable pub accept_file : Fetch → TransferState → Client → Client
unfolding place suppress_clipboard_ms
accept_file r st c =
    let hash : Bytes = maybe r.hash c.img_hash (λ h. h) in
    let seen = record c { img_hash = hash } in
    let quiet = suppress_clipboard_ms r.t_done 2000 seen in
    let conn_ms = sub_ℕ r.t_conn r.t0 in
    let xfer_ms = sub_ℕ r.t_done r.t_conn in
    queue (build_transfer_result (some st.file_id) "p2p" true conn_ms xfer_ms) (place r st quiet)

-- `st->eff_file_level >= 3 && (long long)st->file_size <= st->max_relay_size`
unfoldable pub may_relay : TransferState → Bool
may_relay st = leb_ℤ (pos 3) st.eff_file_level && leb_ℤ (signed64 st.file_size) st.max_relay_size

-- The end without a file: the relay is asked for, or the failure is reported.
unfoldable pub give_up : Fetch → TransferState → Client → Client
unfolding may_relay
give_up r st c =
    let lost = sub_ℕ r.t_end r.t0 in
    if st.success
    then c
    else if may_relay st
    then queue (build_file_relay_request st.file_id) c
    else queue (build_transfer_result (some st.file_id) "failed" false lost (pos 0)) c

-- `ft_close(sock)`, and the listening socket at the end.
abbrev pub close_all : Option ℕ → Client → Client
close_all s c = record c { closed = c.closed ++ as_list s }

unfoldable pub received : Fetch → TransferState → Client → Client
unfolding accept_file give_up
received r st c = maybe r.sock (give_up r st c) (λ s.
    maybe r.size (give_up r st (close_all (some s) (open_sock (some s) c)))
      (λ size. close_all (some s) (accept_file r st (open_sock (some s) c))))

unfoldable pub receiver_thread : Fetch → TransferState → Client → Client
unfolding received
receiver_thread r st c =
    let over = close_all st.listen_fd (received r st c) in record over { active = over.active - 1 }

-- One connection of the sender: its socket, if the file went through, and the time that is left.
pub record Sending : Type 0 where
  pub peer : ℕ
  pub sent_ok : Bool
  pub remaining : ℤ

-- The loop of the sender on the connections that come: those it got, those it closed, and
-- `sent_count`. It stops without a listening socket, out of time, or when no other peer comes.
unfoldable pub sender_loop : Option ℕ → List Sending → List ℕ × List ℕ × ℕ
sender_loop listen [] = ([], [], 0)
sender_loop listen (s ∷ later) =
    let rest = sender_loop listen later in
    let one = if s.sent_ok then 1 else 0 in
    let ended : List ℕ × List ℕ × ℕ = (s.peer ∷ [], s.peer ∷ [], one) in
    let again : List ℕ × List ℕ × ℕ = (s.peer ∷ rest.0, s.peer ∷ rest.1, one + rest.2) in
    maybe listen ended (λ fd. if leb_ℤ s.remaining (pos 0) then ended else again)

unfoldable pub sender_thread : List Sending → TransferState → Client → Client
unfolding sender_loop
sender_thread peers st c =
    let loop = sender_loop st.listen_fd peers in
    record c { opened = c.opened ++ loop.0; closed = c.closed ++ loop.1; active = c.active - 1 }
