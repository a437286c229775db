-- ===== src/PluginData.antt =====
-- plugins/*/*connectionserializer.cpp with plugins/plugins-libs/plugin-utils/serialization-helpers.h: the
-- bytes in which the plugins keep the data of their connections. The data that a `dynamic_cast` does not
-- recognise are `none`; so are bytes that end too early, and a byte that is no `bool`.
use secure_dialogues.Common.{
  ℕ, ◌+◌, ◌==◌, Bool, true, false, Option, none, some, List, ◌∷◌, ◌++◌, Text, length, take, drop,
  leb, if◌then◌else◌,
}
use secure_dialogues.Common.Int.{ℤ}
use secure_dialogues.Common.Options.{◌>>=◌}
use secure_dialogues.StorageLayout.{
  Platform, from_bytes, store_simple_type, restore_simple_type, to_pattern, from_pattern, save_str,
  str_size, ◌⊕◌,
}
pub mod RoundTrip
pub mod Stored

-- `restore_str`: what is read is inserted before what the string held.
unfoldable pub restore_text : Platform → Text → List ℕ → Option (Text × List ℕ)
restore_text p old src = do
  (size, src) ← from_bytes p.size_width src
  if leb size (length src) then some (take size src ++ old, drop size src) else none

abbrev pub bool_code : Bool → ℕ
bool_code false = 0
bool_code true = 1

abbrev pub bool_found : ℕ → Option Bool
bool_found n = if n == 0 then some false else if n == 1 then some true else none

-- The connections of VK and of Gmail have an id and a token.
pub record TokenConnectionInfo : Type 0 where
  pub id : Text
  pub access_token : Text

unfoldable pub size_token_connection : Platform → Option TokenConnectionInfo → ℕ
size_token_connection p none = 0
size_token_connection p (some i) = 0 ⊕ str_size p i.id ⊕ str_size p i.access_token

unfoldable pub serialize_token_connection : Platform → Option TokenConnectionInfo → Option (List ℕ)
serialize_token_connection p none = none
serialize_token_connection p (some i) = some (save_str p i.id ++ save_str p i.access_token)

unfoldable pub deserialize_token_connection :
    Platform → List ℕ → Option TokenConnectionInfo → Option TokenConnectionInfo
unfolding restore_text
deserialize_token_connection p src none = none
deserialize_token_connection p src (some i) = do
  (id, src) ← restore_text p i.id src
  (access_token, src) ← restore_text p i.access_token src
  some (record { id = id; access_token = access_token })

pub record SmtpConnectionInfo : Type 0 where
  pub user_name : Text
  pub password : Text
  pub tls_used : Bool
  pub from : Text
  pub smtp_addr : Text
  pub smtp_port : ℤ
  pub imap_addr : Text
  pub imap_port : ℤ

unfoldable pub size_smtp_connection : Platform → Option SmtpConnectionInfo → ℕ
size_smtp_connection p none = 0
size_smtp_connection p (some i) =
    0
    ⊕ str_size p i.password
    ⊕ p.bool_width
    ⊕ str_size p i.from
    ⊕ str_size p i.imap_addr
    ⊕ p.int_width
    ⊕ str_size p i.smtp_addr
    ⊕ p.int_width
    ⊕ str_size p i.user_name

abbrev pub store_int : Platform → ℤ → List ℕ
store_int p n = store_simple_type p.int_width (to_pattern p.int_width n)

unfoldable pub serialize_smtp_connection : Platform → Option SmtpConnectionInfo → Option (List ℕ)
serialize_smtp_connection p none = none
serialize_smtp_connection p (some i) = some (
    save_str p i.user_name
    ++ (save_str p i.password
        ++ (store_simple_type p.bool_width (bool_code i.tls_used)
            ++ (save_str p i.from
                ++ (save_str p i.imap_addr
                    ++ (store_int p i.imap_port
                        ++ (save_str p i.smtp_addr ++ store_int p i.smtp_port)))))))

unfoldable pub deserialize_smtp_connection :
    Platform → List ℕ → Option SmtpConnectionInfo → Option SmtpConnectionInfo
unfolding restore_text
deserialize_smtp_connection p src none = none
deserialize_smtp_connection p src (some i) = do
  (user_name, src) ← restore_text p i.user_name src
  (password, src) ← restore_text p i.password src
  (tls, src) ← restore_simple_type p.bool_width src
  tls_used ← bool_found tls
  (from, src) ← restore_text p i.from src
  (imap_addr, src) ← restore_text p i.imap_addr src
  (imap_port, src) ← restore_simple_type p.int_width src
  (smtp_addr, src) ← restore_text p i.smtp_addr src
  (smtp_port, src) ← restore_simple_type p.int_width src
  some (record {
    user_name = user_name;
    password = password;
    tls_used = tls_used;
    from = from;
    smtp_addr = smtp_addr;
    smtp_port = from_pattern p.int_width smtp_port;
    imap_addr = imap_addr;
    imap_port = from_pattern p.int_width imap_port;
  })
