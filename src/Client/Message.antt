-- ===== src/Client/Message.antt =====
-- linux/main.c and common/msg.c: the messages that the client builds. An object is the list of the
-- fields added to it, in order, before cJSON prints it; `number` holds the argument of the cast to
-- double. A string that is NULL adds no field, as cJSON_AddStringToObject has it.

use Prim.Native.String.{String}
use sync_clipboard.Prelude.Int.{ℤ, pos}
use sync_clipboard.Prelude.{
  Bool, Bytes, List, Option, [], codes, if◌then◌else◌, none, same, some, ℕ, ◌++◌, ◌∷◌,
}

pub data Value : Type 0 where
  string : Bytes → Value
  number : ℤ → Value
  boolean : Bool → Value
  strings : List Bytes → Value

abbrev pub Object : Type 0
Object = List (Bytes × Value)

abbrev pub add_string : Object → String → Option Bytes → Object
add_string j key none = j
add_string j key (some s) = j ++ (codes key, string s) ∷ []

abbrev pub add : Object → String → Value → Object
add j key v = j ++ (codes key, v) ∷ []

-- `cJSON_GetObjectItem`: the first field with the key.
unfoldable pub field : Bytes → Object → Option Value
field key [] = none
field key ((k, v) ∷ j) = let rest = field key j in if same k key then some v else rest

abbrev pub typed : String → Object
typed name = add_string [] "type" (some (codes name))

unfoldable pub build_auth_msg : Bytes → Object
build_auth_msg sk = add_string (typed "auth") "serverKey" (some sk)

unfoldable pub build_login_msg : Bytes → Bytes → Bytes → Object
build_login_msg u p d =
    let j1 = add_string (typed "login") "username" (some u) in
    add_string (add_string j1 "password" (some p)) "deviceId" (some d)

unfoldable pub build_clipboard_msg : Bytes → Object
build_clipboard_msg enc = add_string (typed "clipboard") "content" (some enc)

unfoldable pub build_file_offer : Bytes → Bytes → Bytes → ℕ → Bytes → List Bytes → Object
build_file_offer fid fname mime fsize cksum addrs =
    let j1 = add_string (typed "file_offer") "fileId" (some fid) in
    let j2 = add_string j1 "fileName" (some fname) in
    let j3 = add_string j2 "mimeType" (some mime) in
    let j4 = add j3 "fileSize" (number (pos fsize)) in
    let j5 = add_string j4 "checksum" (some cksum) in add j5 "localAddresses" (strings addrs)

unfoldable pub build_file_request : Option Bytes → List Bytes → Object
build_file_request fid addrs =
    add (add_string (typed "file_request") "fileId" fid) "localAddresses" (strings addrs)

unfoldable pub build_file_relay_request : Bytes → Object
build_file_relay_request fid = add_string (typed "file_relay") "fileId" (some fid)

-- The text is what `ft_base64_encode` returned.
unfoldable pub build_file_relay_data : Bytes → Option Bytes → ℕ → Bytes → Object
build_file_relay_data fid b64 fsize target =
    let j1 = add_string (typed "file_relay") "fileId" (some fid) in
    let j2 = add j1 "fileSize" (number (pos fsize)) in
    add_string (add_string j2 "targetDevice" (some target)) "data" b64

unfoldable pub build_transfer_result : Option Bytes → String → Bool → ℤ → ℤ → Object
build_transfer_result fid method success conn_ms xfer_ms =
    let j1 = add_string (typed "file_transfer_result") "fileId" fid in
    let j2 = add_string j1 "method" (some (codes method)) in
    let j3 = add j2 "success" (boolean success) in
    add (add j3 "connectionMs" (number conn_ms)) "transferMs" (number xfer_ms)

-- `sc_msg_build`, with what `cJSON_CreateObject` returns.
unfoldable pub sc_msg_build : Bool → Option Bytes → Option Object → Option Object
sc_msg_build memory none body = none
sc_msg_build memory (some type) body =
    let root : Option Object = elim body [
      | some o ↦ some o
      | none ↦ if memory then some [] else none
    ] in
    elim root [
      | none ↦ none
      | some o ↦ some (add (add_string o "type" (some type)) "v" (number (pos 2)))
    ]

unfoldable pub sc_msg_clipboard : Bool → Option Bytes → Option Object
unfolding sc_msg_build
sc_msg_clipboard memory none = none
sc_msg_clipboard memory (some enc) =
    sc_msg_build memory (some (codes "clipboard"))
      (if memory then some (add_string [] "content" (some enc)) else none)

abbrev pub capabilities : List Bytes
capabilities = codes "clipboard" ∷ codes "file_lan" ∷ codes "file_nat" ∷ codes "file_relay" ∷ []

unfoldable pub sc_msg_hello : Bool → Option Bytes → Option Bytes → Option Bytes → Option Object
unfolding sc_msg_build
sc_msg_hello memory client_type device_id app_version =
    let o = add_string [] "clientType" client_type in
    let o1 = add_string (add_string o "deviceId" device_id) "appVersion" app_version in
    sc_msg_build memory (some (codes "hello"))
      (if memory then some (add o1 "capabilities" (strings capabilities)) else none)
