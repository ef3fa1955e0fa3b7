-- ===== src/Windows/Tests.antt =====
-- Runs of the Windows client, and the witnesses of its theorems.

use sync_clipboard.Prelude.Int.{pos}
use sync_clipboard.Client.Handlers.{
  Json, announced, decrypt, fill_slots, on_file_notify, on_file_peer_info, start_thread, with_peer,
}
use sync_clipboard.Client.Monitor.{offer}
use sync_clipboard.Client.Moves.{account, receivers, requests}
use sync_clipboard.Client.Moves.Threads.{without}
use sync_clipboard.Client.Samples.{json_of, notify, peer_info, sample_env, sample_libs}
use sync_clipboard.Client.Shell.{same_case}
use sync_clipboard.Client.State.{Client, TransferState, effective_file_level, open_sock, renew}
use sync_clipboard.Codec.{bytes_to_hex, hex_loop, hex_to_bytes}
use sync_clipboard.Config.{defaults}
use sync_clipboard.Crypto.{gcm_decrypt}
use sync_clipboard.Crypto.Cbc.{aes_decrypt, open_cbc}
use sync_clipboard.Digest.{sha256_hex}
use sync_clipboard.Prelude.{
  Bytes, [], arith, behind_last, codes, count, false, length, maybe, refl, replicate, same, some,
  true, ◌*◌, ◌++◌, ◌+◌, ◌∷◌, ◌≡◌, ◌≤◌,
}
use sync_clipboard.Windows.Board.{
  bf_off_bits, bmp_file, bmp_to_png, dib_of, dynbuf_write, get_bitmap, grow, header_field, le_bytes,
  le_value, png_mark, png_to_dib, row_of, write_blocks,
}
use sync_clipboard.Windows.Board.Rows.{dib_of-bmp_file, dib_row, png_to_dib-dib_row}
use sync_clipboard.Windows.Desk.{Desk, fresh_desk, with_client}
use sync_clipboard.Windows.Flag.{paste-on_clipboard_changed}
use sync_clipboard.Windows.Handlers.{paste, ws_receive}
use sync_clipboard.Windows.Monitor.{
  look_for_file, look_for_image, on_clipboard_changed, png_transfer, read_transfer, share_file,
  share_image, share_sized, win_mime_from_ext,
}
use sync_clipboard.Windows.Moves.Steps.{
  WinReach, WinReach-account, win_change, win_message, win_next, win_receiver, win_start,
}
use sync_clipboard.Windows.Outcome.{Outcome}
use sync_clipboard.Windows.Samples.{
  desktop, file_view, image_view, logged_desk, picture, sample_stb, text_view,
}
use sync_clipboard.Windows.Thread.{Download, win_receiver_thread}
use sync_clipboard.Windows.Moves.Runs.{
  win_run_open, win_run_start, WinRun, win_run_step, WinRun-account,
}

abbrev pasted_msg : Json
pasted_msg =
    json_of
      ((codes "type", codes "clipboard") ∷ (codes "content", replicate 16 1 ++ codes "hi") ∷ [])

opened : decrypt sample_libs defaults sample_env (replicate 16 1 ++ codes "hi") ≡ some (codes "hi")
unfolding decrypt gcm_decrypt hex_to_bytes hex_loop aes_decrypt open_cbc maybe
opened = refl

abbrev pasted : Desk
pasted = paste sample_libs defaults desktop pasted_msg logged_desk

abbrev after_paste : Desk
after_paste =
    on_clipboard_changed sample_stb sample_libs defaults sample_env (text_view (codes "hi")) pasted

paste-on_clipboard_changed_example :
    (after_paste ≡ record pasted { suppress_next = false })
    × (on_clipboard_changed sample_stb sample_libs defaults sample_env
          (text_view (codes "hi"))
          after_paste
        ≡ after_paste)
unfolding same
paste-on_clipboard_changed_example =
    paste-on_clipboard_changed sample_libs defaults desktop pasted_msg logged_desk
      (replicate 16 1 ++ codes "hi") (codes "hi") refl opened refl sample_stb sample_env sample_env
      (text_view (codes "hi")) (text_view (codes "hi")) refl refl refl

abbrev shared_file : Client
shared_file =
    (on_clipboard_changed sample_stb sample_libs defaults sample_env file_view logged_desk).client

-- The file of two bytes is offered under its name, with the type of its extension.
file_run :
    (shared_file.xfer.file_name ≡ codes "a.PDF")
    × (shared_file.xfer.mime_type ≡ codes "application/pdf")
    × (shared_file.xfer.file_size ≡ 2)
    × (shared_file.xfer.listen_fd ≡ some 5)
unfolding on_clipboard_changed look_for_image look_for_file share_file share_sized read_transfer
    win_mime_from_ext behind_last same_case effective_file_level same maybe offer renew
file_run = (refl, refl, refl, refl)

abbrev shared_image : Client
shared_image =
    (on_clipboard_changed sample_stb sample_libs defaults sample_env image_view logged_desk).client

-- A bitmap is offered as the PNG made of it.
image_run :
    (shared_image.xfer.file_name ≡ codes "clipboard.png") × (shared_image.xfer.file_size ≡ 11)
unfolding on_clipboard_changed look_for_image share_image png_transfer bmp_to_png write_blocks
    dynbuf_write grow get_bitmap bmp_file le_bytes bf_off_bits le_value effective_file_level same
    maybe offer renew sha256_hex bytes_to_hex
image_run = (refl, refl)

mime_run :
    (win_mime_from_ext (codes "x.JPeg") ≡ codes "image/jpeg")
    × (win_mime_from_ext (codes "x.webp") ≡ codes "application/octet-stream")
unfolding win_mime_from_ext behind_last same_case maybe
mime_run = (refl, refl)

png_to_dib-dib_row_example :
    (dib : Bytes) × (png_to_dib sample_stb true png_mark ≡ some dib)
    × (length dib ≡ 40 + 2 * (1 * 4))
    × (header_field 0 4 dib ≡ 40)
    × (header_field 4 4 dib ≡ 1)
    × (header_field 8 4 dib ≡ 2)
    × (header_field 14 2 dib ≡ 32)
    × (dib_row 1 2 dib 1 ≡ row_of (1 * 4) picture.rgba 1)
png_to_dib-dib_row_example =
    png_to_dib-dib_row sample_stb png_mark picture refl refl (omega arith) (omega arith) 1
      (omega arith)

bitmap_run : dib_of sample_stb true (bmp_file (1 ∷ 2 ∷ [])) ≡ some (1 ∷ 2 ∷ [])
bitmap_run = dib_of-bmp_file sample_stb true (1 ∷ 2 ∷ []) (omega arith)

abbrev notified : Desk
notified = ws_receive sample_stb sample_libs defaults desktop notify fresh_desk

abbrev peered : Desk
peered = ws_receive sample_stb sample_libs defaults desktop peer_info notified

abbrev receiver : TransferState
receiver = record (announced sample_env notify) {
  peer_addrs = codes "10.0.0.3:9" ∷ replicate 7 [];
  peer_addr_count = 1;
  eff_file_level = pos 3;
  same_lan = true;
  phase = 2;
}

peered_threads : peered.client.threads ≡ [] ++ receiver ∷ []
unfolding same maybe ws_receive on_file_notify on_file_peer_info with_peer start_thread fill_slots
    announced renew effective_file_level
peered_threads = refl

abbrev download : Download
download = record {
  sock = some 6;
  bytes = some (codes "DATA");
  t0 = 0;
  t_conn = 10;
  t_xfer = 11;
  t_done = 30;
  t_end = 40;
}

abbrev ended : Desk
ended =
    win_receiver_thread sample_stb desktop download receiver
      (with_client (without [] [] peered.client) peered)

way : WinReach sample_stb sample_libs defaults fresh_desk ended
unfolding announced
way =
    win_next peered ended
      (win_next notified peered
        (win_next fresh_desk notified win_start (win_message fresh_desk desktop notify refl))
        (win_message notified desktop peer_info refl))
      (win_receiver peered [] receiver [] peered_threads desktop download refl)

-- The socket 5 that the client listened on is closed.
WinReach-account_run :
    (account 5 ended.client ≡ count 5 (0 ∷ ended.client.opened))
    × (receivers ended.client.started ≤ requests ended.client.sent + 1)
WinReach-account_run = WinReach-account sample_stb sample_libs defaults ended way 5

-- A change of the clipboard comes while the receiver has its connection 6.
abbrev connected : Desk
connected = with_client (open_sock (some 6) peered.client) peered

abbrev interrupted : Desk
interrupted = on_clipboard_changed sample_stb sample_libs defaults sample_env file_view connected

interrupted-WinRun : WinRun sample_stb sample_libs defaults fresh_desk interrupted (6 ∷ [])
unfolding announced
interrupted-WinRun =
    win_run_step connected interrupted (6 ∷ [])
      (win_run_open peered [] 6 (
        win_run_step notified peered []
          (win_run_step fresh_desk notified [] win_run_start
            (win_message fresh_desk desktop notify refl))
          (win_message notified desktop peer_info refl)))
      (win_change connected sample_env file_view)

WinRun-account_example :
    (account 6 interrupted.client + count 6 (6 ∷ []) ≡ count 6 (0 ∷ interrupted.client.opened))
    × (receivers interrupted.client.started ≤ requests interrupted.client.sent + 1)
WinRun-account_example =
    WinRun-account sample_stb sample_libs defaults interrupted (6 ∷ []) interrupted-WinRun 6
