-- ===== src/Client/PairTests.antt =====
-- Runs of two clients, and the witnesses of the theorems about them.
use sync_clipboard.Client.Handlers.{Json, handle}
use sync_clipboard.Client.Message.{Object, Value, field, string}
use sync_clipboard.Client.Monitor.{poll}
use sync_clipboard.Client.Relay.{IsRelay, handle-relay}
use sync_clipboard.Client.Samples.{json_of, sample_env, sample_libs, text_look}
use sync_clipboard.Client.Shell.{clipboard_has_file, clipboard_has_image}
use sync_clipboard.Client.State.{
  Block, Client, Libs, fresh, image_set, is_suppressed, text_set, zero_state,
}
use sync_clipboard.Client.Sync.{IsFaithful, handle-poll}
use sync_clipboard.Codec.{bytes_to_hex}
use sync_clipboard.Config.{ClientConfig, defaults}
use sync_clipboard.Crypto.Toy.{toy_key, toy_key-IsKey, toy_ssl, toy_ssl-IsSound, toy_ssl-IsWorking}
use sync_clipboard.Digest.{sha256_hex}
use sync_clipboard.Digest.Toy.{toy_coder, toy_coder-IsBlockCoder}
use sync_clipboard.Prelude.{
  Bytes, Option, [], ap, arith, codes, contains, if◌then◌else◌, none, refl, replicate, same, some,
  true, ◌++◌, ◌∷◌, ◌≡◌,
}

abbrev pub toy_libs : Libs
toy_libs = record sample_libs { ssl = toy_ssl; coder = toy_coder }

abbrev pub toy_config : ClientConfig
toy_config = record defaults { aes_key = toy_key }

abbrev pub string_in : Option Value → Option Bytes
string_in (some (string s)) = some s
string_in _ = none

-- A message that arrives as it was sent.
abbrev pub strings_of : Object → Json
strings_of msg = record (json_of []) { text = λ key. string_in (field key msg) }

pub strings_of-IsFaithful : IsFaithful strings_of
strings_of-IsFaithful = record { carries = λ msg key s e. ap string_in e }

abbrev logged : Client
logged = record fresh { logged_in = true }

handle-poll_example :
    (msg : Object) × ((poll toy_libs toy_config sample_env (text_look (codes "hi")) logged).sent
      ≡ [] ++ msg ∷ [])
    × ((handle toy_libs toy_config sample_env (strings_of msg) fresh).board
        ≡ [] ++ text_set (codes "hi") ∷ [])
    × ((handle toy_libs toy_config sample_env (strings_of msg) fresh).clip_hash
        ≡ (poll toy_libs toy_config sample_env (text_look (codes "hi")) logged).clip_hash)
unfolding clipboard_has_image clipboard_has_file contains same is_suppressed sha256_hex bytes_to_hex
handle-poll_example =
    handle-poll toy_libs toy_config toy_config strings_of strings_of-IsFaithful toy_ssl-IsSound
      toy_ssl-IsWorking toy_key-IsKey refl sample_env sample_env (text_look (codes "hi")) logged
      fresh (codes "hi") (replicate 12 0) refl refl refl refl refl refl refl refl refl (omega arith)
      refl

-- The relay changes the type, and adds the MIME type of the offer.
abbrev relay : Object → Json
relay msg = record (json_of []) {
  text = λ key.
      if same key (codes "type")
      then some (codes "file_relay_data")
      else if same key (codes "mimeType")
      then some (codes "image/png")
      else string_in (field key msg);
}

relay-IsRelay : IsRelay 100 (codes "image/png") relay
unfolding same
relay-IsRelay = record {
  typed = λ msg e. refl;
  carries_data = λ msg s r e. ap string_in e;
  tells_mime = λ msg r. refl;
}

abbrev request_msg : Json
request_msg =
    json_of ((codes "type", codes "file_relay_request") ∷ (codes "requesterId", codes "d2") ∷ [])

abbrev png : Block
png = record { at = 7; bytes = codes "PNG" }

abbrev holder : Client
holder = record fresh { xfer = record zero_state { block = some png } }

handle-relay_example :
    (msg : Object) × ((handle toy_libs toy_config sample_env request_msg holder).sent
      ≡ [] ++ msg ∷ [])
    × ((handle toy_libs toy_config sample_env (relay msg) fresh).board
        ≡ [] ++ image_set (codes "PNG") (codes "image/png") ∷ [])
    × ((handle toy_libs toy_config sample_env (relay msg) fresh).img_hash
        ≡ sha256_hex toy_libs.digest (codes "PNG"))
unfolding same
handle-relay_example =
    handle-relay toy_libs toy_config toy_config 100 (codes "image/png") relay relay-IsRelay
      toy_coder-IsBlockCoder sample_env sample_env request_msg holder fresh png (codes "d2") refl
      refl refl refl refl refl (omega arith) (omega arith) refl
