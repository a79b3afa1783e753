-- ===== src/Folders/Names.antt =====
-- The names of folders: `invalidName` of src/modules/folder/folder.usecase.ts, and the encryption of names
-- (src/externals/crypto/crypto.service.ts and aes.ts).
use Prim.Native.Char.{code}
use text.Mathlib.Text.{◌==◌ as str_eq}
use drive_server_wip.Prelude.{
  ℕ, String, Bool, true, false, ◌&&◌, ◌||◌, Option, none, some, List, [], ◌∷◌, ◌==◌, leb,
  if◌then◌else◌,
}

abbrev pub codes : String → List ℕ
codes String.[] = []
codes (String.◌∷◌ c s) = code c ∷ codes s

-- What `\s` matches.
unfoldable pub is_space : ℕ → Bool
is_space c =
    (leb 9 c && leb c 13)
    || c == 32
    || c == 160
    || c == 5760
    || (leb 8192 c && leb c 8202)
    || c == 8232
    || c == 8233
    || c == 8239
    || c == 8287
    || c == 12288
    || c == 65279

unfoldable pub is_blank : List ℕ → Bool
unfolding is_space
is_blank [] = true
is_blank (c ∷ cs) = is_space c && is_blank cs

unfoldable pub has_slash : List ℕ → Bool
has_slash [] = false
has_slash (c ∷ cs) = c == 47 || c == 92 || has_slash cs

-- `name === '' || invalidName.test(name)`
unfoldable pub is_invalid_name : String → Bool
unfolding is_blank has_slash
is_invalid_name name = has_slash (codes name) || is_blank (codes name)

-- A ciphertext begins with the random salt and vector that it was made with.
pub record EncryptedName : Type 0 where
  pub random : ℕ
  pub payload : ℕ

abbrev pub same_encrypted : EncryptedName → EncryptedName → Bool
same_encrypted a b = a.random == b.random && a.payload == b.payload

-- The ciphers of the libraries: a payload from the random bytes, the salt and the text; and the three
-- ways to open a ciphertext, which fail with `none`.
pub record Ciphers : Type 0 where
  pub seal : ℕ → Option ℕ → String → ℕ
  pub open_with_salt : EncryptedName → ℕ → Option String
  pub open_deterministic : EncryptedName → ℕ → Option String
  pub open_probabilistic : EncryptedName → Option String

-- `!text`
abbrev pub is_missing : Option String → Bool
is_missing none = true
is_missing (some text) = str_eq text ""

abbrev pub first_opened : Option String → Option String → Option String → Option String
first_opened (some text) deterministic probabilistic = some text
first_opened none deterministic probabilistic =
    if is_missing deterministic then probabilistic else deterministic

unfoldable pub decrypt_name : Ciphers → EncryptedName → Option ℕ → Option String
decrypt_name ciphers name none = ciphers.open_probabilistic name
decrypt_name ciphers name (some salt) =
    if salt == 0
    then ciphers.open_probabilistic name
    else first_opened (ciphers.open_with_salt name salt) (ciphers.open_deterministic name salt)
        (ciphers.open_probabilistic name)

abbrev pub same_text : Option String → Option String → Bool
same_text none b = false
same_text (some a) none = false
same_text (some a) (some b) = str_eq a b
