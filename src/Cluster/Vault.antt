-- ===== src/Cluster/Vault.antt =====
-- backend/app/services/credentials/vault.py. Fernet (the `cryptography` package) is a parameter:
-- `encrypt` takes the random bits that it draws as a number.
use shift_wise.Prelude.{if◌then◌else◌, ℕ, ◌≡◌, Option, none, some, arith}
use Prim.Native.String.{String}
use text.Mathlib.Text.{◌==◌ as str_eq}

pub record Fernet : Type 1 where
  pub Token : Type 0
  pub encrypt_bytes : ℕ → String → Token
  pub decrypt_bytes : Token → Option String
  pub decrypt_bytes-encrypt_bytes :
      (nonce : ℕ) (text : String) → decrypt_bytes (encrypt_bytes nonce text) ≡ some text

module _ (f : Fernet) where
  -- `CredentialVault.encrypt`; `none` is the `ValueError` on an empty text.
  unfoldable pub encrypt : ℕ → String → Option (Fernet.Token f)
  encrypt nonce plaintext =
      if str_eq plaintext "" then none else some (Fernet.encrypt_bytes f nonce plaintext)

  -- `CredentialVault.decrypt`; `none` is `InvalidToken`.
  unfoldable pub decrypt : Fernet.Token f → Option String
  decrypt ciphertext = Fernet.decrypt_bytes f ciphertext

  pub decrypt-encrypt :
      (nonce : ℕ) (text : String) (c : Fernet.Token f)
      → encrypt nonce text ≡ some c
      → decrypt c ≡ some text
  unfolding encrypt decrypt
  decrypt-encrypt nonce text c h = ground (arith, Fernet.decrypt_bytes-encrypt_bytes f nonce text)
