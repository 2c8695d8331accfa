-- ===== src/Session/KeyUpload/Limit.antt =====
-- server/src/session/key_upload.rs: the outcomes of an upload.
use oxmux.Prelude.{
  ℕ, suc, ◌≤◌, ◌≡◌, refl, Bool, true, Option, none, some, arith, ltb, leb, is_empty, length, [],
  ◌∷◌, Bool-cases, inl, inr, ◌⊎◌,
}
use oxmux.Prelude.Text.{Text, trim, text_eq}
use oxmux.Prelude.Maps.{Map, get, insert, get_self-insert}
use oxmux.Tmux.Decode.{utf8}
use oxmux.Result.{ok, Result-cases}
use oxmux.Jwt.{Claims, JwtLibrary, validate_token}
use oxmux.Session.Manager.{SessionManager}
use oxmux.Session.KeyUpload.{
  UploadKeyRequest, UploadReply, refused, stored, decode_pass, store_key, upload_ssh_key,
}

length-insert {ℓ} :
    {V : Type ℓ} (k : Text) (v : V) (m : Map V) → length (insert k v m) ≤ suc (length m)
unfolding insert
length-insert k v [] = omega arith
length-insert k v ((j, w) ∷ m) = elim (Bool-cases (text_eq j k)) [
  | inl e ↦ rw (e, insert) (omega arith)
  | inr e ↦ rw (e, insert) (omega (arith, length-insert k v m))
]

-- the request was refused and nothing changed
abbrev pub IsRefused : UploadReply × SessionManager → SessionManager → Type 0
IsRefused (reply, m') m =
    (status : ℕ) × (message : Text) × (reply ≡ refused status message) × (m' ≡ m)

-- the key is in memory under its id, and what it passed
abbrev pub IsStored :
    (Text → Option Text → Bool) → Text → UploadKeyRequest → UploadReply × SessionManager → Type 0
IsStored decodes key_id req (reply, m') =
    (reply ≡ stored key_id)
    × (get key_id m'.ephemeral_keys ≡ some (req.key_pem, req.passphrase))
    × (length m'.ephemeral_keys ≤ 100)
    × (length (utf8 req.key_pem) ≤ 8192)
    × (decodes req.key_pem (decode_pass req) ≡ true)

store_key-outcome :
    (decodes : Text → Option Text → Bool) (key_id : Text) (req : UploadKeyRequest)
    (m : SessionManager)
    → IsRefused (store_key decodes key_id req m) m
      ⊎ IsStored decodes key_id req (store_key decodes key_id req m)
unfolding store_key
store_key-outcome decodes key_id req m = elim (Bool-cases (ltb 8192 (length (utf8 req.key_pem)))) [
  | inl large ↦ rw (large, store_key) (inl (_, _, refl, refl))
  | inr small ↦ elim (Bool-cases (is_empty (trim req.key_pem))) [
    | inl blank ↦ rw (small, store_key) (rw (blank, store_key) (inl (_, _, refl, refl)))
    | inr full ↦ elim (Bool-cases (decodes req.key_pem (decode_pass req))) [
      | inr bad ↦
          rw (small, store_key)
            (rw (full, store_key) (rw (bad, store_key) (inl (_, _, refl, refl))))
      | inl good ↦ elim (Bool-cases (leb 100 (length m.ephemeral_keys))) [
        | inl many ↦
            rw (small, store_key)
              (rw (full, store_key)
                (rw (good, store_key) (rw (many, store_key) (inl (_, _, refl, refl)))))
        | inr few ↦
            rw (small, store_key)
              (rw (full, store_key)
                (rw (good, store_key)
                  (rw (few, store_key)
                    (inr (
                      refl,
                      get_self-insert key_id (req.key_pem, req.passphrase) m.ephemeral_keys,
                      ground (
                        arith,
                        length-insert key_id (req.key_pem, req.passphrase) m.ephemeral_keys,
                      ),
                      ground arith,
                      refl,
                    )))))
      ]
    ]
  ]
]

-- An upload either is refused and changes nothing, or the token was valid, the key has at most 8192
-- bytes and was parsed, it is in memory under its id, and there are at most 100 keys.
pub upload_outcome :
    (jwt : JwtLibrary) (now : ℕ) (secret : Text) (decodes : Text → Option Text → Bool)
    (key_id : Text) (token : Option Text) (req : UploadKeyRequest) (m : SessionManager)
    → IsRefused (upload_ssh_key jwt now secret decodes key_id token req m) m
      ⊎ (IsStored decodes key_id req (upload_ssh_key jwt now secret decodes key_id token req m)
          × ((t : Text) × (claims : Claims) × (token ≡ some t)
              × (validate_token jwt now t secret ≡ ok claims)))
unfolding upload_ssh_key
upload_outcome jwt now secret decodes key_id none req m = inl (_, _, refl, refl)
upload_outcome jwt now secret decodes key_id (some t) req m =
    elim (Result-cases (validate_token jwt now t secret)) [
      | inr (e, eq) ↦ rw (eq, upload_ssh_key) (inl (_, _, refl, refl))
      | inl (claims, eq) ↦
          rw (eq, upload_ssh_key)
            (elim (store_key-outcome decodes key_id req m) [
              | inl r ↦ inl r
              | inr s ↦ inr (s, (t, claims, refl, eq))
            ])
    ]
