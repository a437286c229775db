-- ===== src/PluginData/RoundTrip.antt =====
-- What the plugins store of their connections they read again.
use mathlib.Core.List.{append_assoc}
use secure_dialogues.Common.{
  ℕ, ◌%◌, ◌<◌, ◌^◌, ◌≡◌, refl, Bool, true, false, some, List, ◌++◌, Text, length, length-append,
  take-append, drop-append, leb, arith,
}
use secure_dialogues.StorageLayout.{Platform, save_str, to_bytes}
use secure_dialogues.StorageLayout.Numbers.{
  Fits, from_bytes-to_bytes, from_pattern-to_pattern, to_pattern_lt, length-to_bytes,
}
use secure_dialogues.StorageLayout.Sizes.{length-save_str}
use secure_dialogues.PluginData.{
  TokenConnectionInfo, SmtpConnectionInfo, restore_text, bool_code, bool_found,
  deserialize_token_connection, serialize_token_connection, deserialize_smtp_connection,
  serialize_smtp_connection, size_smtp_connection, size_token_connection,
}

module _ (p : Platform) where
  restore_text-save_str :
      (old s : Text) (rest : List ℕ)
      → length s < 256 ^ p.size_width
      → restore_text p old (save_str p s ++ rest) ≡ some (s ++ old, rest)
  unfolding restore_text save_str
  restore_text-save_str old s rest fits =
      let enough : leb (length s) (length (s ++ rest)) ≡ true =
        rw (length-append s rest) (ground arith) in
      rw
        (
          append_assoc (to_bytes p.size_width (length s)) s rest,
          from_bytes-to_bytes p.size_width (length s) (s ++ rest) fits,
        )
        (rw (enough, take-append s rest, drop-append s rest) refl)

  bool_code_lt : (b : Bool) → 1 < 256 ^ p.bool_width → bool_code b < 256 ^ p.bool_width
  bool_code_lt true h = h
  bool_code_lt false h = omega (arith, h)

  bool_found-bool_code : (b : Bool) → bool_found (bool_code b) ≡ some b
  bool_found-bool_code true = refl
  bool_found-bool_code false = refl

  -- The data of an SMTP connection, read into an object that held other data: each text stands before
  -- the text that was there.
  abbrev pub inserted : SmtpConnectionInfo → SmtpConnectionInfo → SmtpConnectionInfo
  inserted i old = record i {
    user_name = i.user_name ++ old.user_name;
    password = i.password ++ old.password;
    from = i.from ++ old.from;
    smtp_addr = i.smtp_addr ++ old.smtp_addr;
    imap_addr = i.imap_addr ++ old.imap_addr;
  }

  pub record SmtpFits (i : SmtpConnectionInfo) : Type 0 where
    pub user_name_fits : length i.user_name < 256 ^ p.size_width
    pub password_fits : length i.password < 256 ^ p.size_width
    pub from_fits : length i.from < 256 ^ p.size_width
    pub smtp_addr_fits : length i.smtp_addr < 256 ^ p.size_width
    pub imap_addr_fits : length i.imap_addr < 256 ^ p.size_width
    pub bool_fits : 1 < 256 ^ p.bool_width
    pub smtp_port_fits : Fits p.int_width i.smtp_port
    pub imap_port_fits : Fits p.int_width i.imap_port

  -- The data of an SMTP connection whose lengths and ports fit their types are written in as many bytes
  -- as announced, modulo the range of `uint32_t`; read from there, whatever follows, the ports and the
  -- flag are those that were written, and each text is the written one, before what the object held.
  pub deserialize-serialize_smtp_connection :
      (i old : SmtpConnectionInfo) (rest : List ℕ)
      → SmtpFits i
      → (bytes : List ℕ) × (serialize_smtp_connection p (some i) ≡ some bytes)
        × (size_smtp_connection p (some i) ≡ length bytes % 2 ^ 32)
        × (deserialize_smtp_connection p (bytes ++ rest) (some old) ≡ some (inserted i old))
  unfolding serialize_smtp_connection deserialize_smtp_connection size_smtp_connection
  deserialize-serialize_smtp_connection i old rest fits =
      let smtp_lt = to_pattern_lt p.int_width i.smtp_port fits.smtp_port_fits in
      let smtp_same = from_pattern-to_pattern p.int_width i.smtp_port fits.smtp_port_fits in
      let imap_lt = to_pattern_lt p.int_width i.imap_port fits.imap_port_fits in
      let imap_same = from_pattern-to_pattern p.int_width i.imap_port fits.imap_port_fits in
      let bool_lt = bool_code_lt i.tls_used fits.bool_fits in
      (
        _,
        refl,
        simp (length-append, length-save_str, length-to_bytes) (omega arith),
        simp (
          append_assoc, restore_text-save_str, from_bytes-to_bytes, bool_found-bool_code, smtp_lt,
          smtp_same, imap_lt, imap_same, bool_lt, fits.user_name_fits, fits.password_fits,
          fits.from_fits, fits.smtp_addr_fits, fits.imap_addr_fits,
        ),
      )

  pub deserialize-serialize_token_connection :
      (i old : TokenConnectionInfo) (rest : List ℕ)
      → length i.id < 256 ^ p.size_width
      → length i.access_token < 256 ^ p.size_width
      → (bytes : List ℕ) × (serialize_token_connection p (some i) ≡ some bytes)
        × (size_token_connection p (some i) ≡ length bytes % 2 ^ 32)
        × (deserialize_token_connection p (bytes ++ rest) (some old)
            ≡ some
                (record { id = i.id ++ old.id; access_token = i.access_token ++ old.access_token }))
  unfolding serialize_token_connection deserialize_token_connection size_token_connection
  deserialize-serialize_token_connection i old rest id_fits token_fits = (
    _,
    refl,
    simp (length-append, length-save_str) (omega arith),
    simp (append_assoc, restore_text-save_str, id_fits, token_fits),
  )
