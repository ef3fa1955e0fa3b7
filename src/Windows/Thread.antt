-- ===== src/Windows/Thread.antt =====
-- windows/main.c: `receiver_thread`, from the count of active transfers to the end. A file comes into
-- memory, with `ft_recv_file`. `sender_thread_func` is the sender of Linux.
use sync_clipboard.Prelude.Int.{sub_ℕ, pos}
use sync_clipboard.Client.Message.{build_file_relay_request, build_transfer_result}
use sync_clipboard.Client.State.{Client, TransferState, open_sock, queue}
use sync_clipboard.Client.Thread.{close_all, may_relay}
use sync_clipboard.Prelude.{Bytes, Option, false, if◌then◌else◌, maybe, some, true, ℕ, ◌-◌}
use sync_clipboard.Windows.Board.{Stb}
use sync_clipboard.Windows.Desk.{Desk, Desktop, place_bytes, suppress, with_client}

-- The socket, the bytes that `ft_recv_file` gave, and the clock at the start, once connected, before
-- the transfer, after it and at the end.
pub record Download : Type 0 where
  pub sock : Option ℕ
  pub bytes : Option Bytes
  pub t0 : ℕ
  pub t_conn : ℕ
  pub t_xfer : ℕ
  pub t_done : ℕ
  pub t_end : ℕ

unfoldable pub take_file : Stb → Desktop → Download → TransferState → Bytes → Desk → Desk
unfolding place_bytes
take_file stb w r st bytes d =
    let conn_ms = sub_ℕ r.t_conn r.t0 in
    let xfer_ms = sub_ℕ r.t_done r.t_xfer in
    let placed = place_bytes stb w st.mime_type st.file_name bytes d.client in
    let result = build_transfer_result (some st.file_id) "p2p" true conn_ms xfer_ms in
    with_client (queue result placed) (suppress d)

-- The end without a file.
unfoldable pub report_loss : Download → TransferState → Client → Client
unfolding may_relay
report_loss r st c =
    let lost = sub_ℕ r.t_end r.t0 in
    if st.success
    then c
    else if may_relay st
    then queue (build_file_relay_request st.file_id) c
    else queue (build_transfer_result (some st.file_id) "failed" false lost (pos 0)) c

unfoldable pub downloaded : Stb → Desktop → Download → TransferState → Desk → Desk
unfolding take_file report_loss
downloaded stb w r st d =
    let missed = with_client (report_loss r st d.client) d in
    maybe r.sock missed (λ s.
      let held = with_client (open_sock (some s) d.client) d in
      let lost = with_client (report_loss r st (close_all (some s) held.client)) d in
      maybe r.bytes lost (λ bytes.
        let taken = take_file stb w r st bytes held in
        with_client (close_all (some s) taken.client) taken))

unfoldable pub win_receiver_thread : Stb → Desktop → Download → TransferState → Desk → Desk
unfolding downloaded
win_receiver_thread stb w r st d =
    let after = downloaded stb w r st d in
    let over = close_all st.listen_fd after.client in
    with_client (record over { active = over.active - 1 }) after
