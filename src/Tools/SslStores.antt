-- ===== src/Tools/SslStores.antt =====
-- `generate_ssl_stores` of tools.py; `keytool` is a parameter.
use cassandra_dtest.Base.{
  ◌≡◌, refl, Bool, true, false, List, [], ◌∷◌, ◌++◌, Outcome, returned, raised, Action, any, ap,
  ◌∙◌, if◌then◌else◌, ◌⊎◌, inl, inr, true-ne-false, sym,
}
use cassandra_dtest.Text.{Text, text, text_eq}

-- `os.path.join(base_dir, name)` for a directory without a slash at its end.
abbrev pub in_dir : Text → Text → Text
in_dir base_dir name = base_dir ++ (text "/" ++ name)

-- The first command: a key pair in the key store.
unfoldable pub genkeypair : Text → Text → List Text
genkeypair base_dir passphrase =
    text "keytool"
    ∷ text "-genkeypair"
    ∷ text "-alias"
    ∷ text "ccm_node"
    ∷ text "-keyalg"
    ∷ text "RSA"
    ∷ text "-validity"
    ∷ text "365"
    ∷ text "-keystore"
    ∷ in_dir base_dir (text "keystore.jks")
    ∷ text "-storepass"
    ∷ passphrase
    ∷ text "-dname"
    ∷ text "cn=Cassandra Node,ou=CCMnode,o=DataStax,c=US"
    ∷ text "-keypass"
    ∷ passphrase
    ∷ []

-- The second: the certificate, from the key store.
unfoldable pub export_cert : Text → Text → List Text
export_cert base_dir passphrase =
    text "keytool"
    ∷ text "-export"
    ∷ text "-rfc"
    ∷ text "-alias"
    ∷ text "ccm_node"
    ∷ text "-keystore"
    ∷ in_dir base_dir (text "keystore.jks")
    ∷ text "-file"
    ∷ in_dir base_dir (text "ccm_node.cer")
    ∷ text "-storepass"
    ∷ passphrase
    ∷ []

-- The third: the trust store, from the certificate.
unfoldable pub import_cert : Text → Text → List Text
import_cert base_dir passphrase =
    text "keytool"
    ∷ text "-import"
    ∷ text "-file"
    ∷ in_dir base_dir (text "ccm_node.cer")
    ∷ text "-alias"
    ∷ text "ccm_node"
    ∷ text "-keystore"
    ∷ in_dir base_dir (text "truststore.jks")
    ∷ text "-storepass"
    ∷ passphrase
    ∷ text "-noprompt"
    ∷ []

-- `CalledProcessError`
pub data SslError : Type 0 where
  called_process_error : SslError

-- What a command does with the files that exist: whether it exits with 0, and the files after it.
abbrev pub Keytool : Type 0
Keytool = List Text → List Text → Bool × List Text

-- `os.path.exists`
unfoldable pub exists : Text → List Text → Bool
unfolding text_eq
exists path files = any (text_eq path) files

-- `subprocess.check_call`
unfoldable pub check_call : Keytool → List Text → Action (List Text) SslError (Unit {0})
check_call keytool args files =
    let (ok, files') = keytool args files in
    (if ok then returned tt else raised called_process_error, files')

-- The commands one after another; the first that fails ends them.
unfoldable pub check_calls : Keytool → List (List Text) → Action (List Text) SslError (Unit {0})
unfolding check_call
check_calls keytool [] files = (returned tt, files)
check_calls keytool (args ∷ rest) files =
    let (r, files') = check_call keytool args files in
    elim r [ returned _ ↦ check_calls keytool rest files' | raised e ↦ (raised e, files') ]

-- `generate_ssl_stores`
unfoldable pub generate_ssl_stores : Keytool → Text → Text → Action (List Text) SslError (Unit {0})
unfolding exists check_calls genkeypair export_cert import_cert
generate_ssl_stores keytool base_dir passphrase files =
    if exists (in_dir base_dir (text "keystore.jks")) files
    then (returned tt, files)
    else check_calls keytool
        (genkeypair base_dir passphrase
          ∷ export_cert base_dir passphrase
          ∷ import_cert base_dir passphrase
          ∷ [])
        files

-- The tool leaves the file at a path in place, and makes it when there is none and it succeeds with the
-- key pair.
pub record IsKeytool (keytool : Keytool) (path : Text) (base_dir passphrase : Text) : Type 0 where
  pub kept :
      (args files : List Text)
      → exists path files ≡ true
      → exists path (keytool args files).1 ≡ true
  pub made :
      (files : List Text)
      → exists path files ≡ false
      → (keytool (genkeypair base_dir passphrase) files).0 ≡ true
      → exists path (keytool (genkeypair base_dir passphrase) files).1 ≡ true

check_calls_kept :
    (keytool : Keytool) (path : Text) (commands : List (List Text)) (files : List Text)
    → ((args fs : List Text) → exists path fs ≡ true → exists path (keytool args fs).1 ≡ true)
    → exists path files ≡ true
    → exists path (check_calls keytool commands files).1 ≡ true
unfolding check_calls check_call
check_calls_kept keytool path [] files kept h = h
check_calls_kept keytool path (args ∷ rest) files kept h =
    go (keytool args files).0 (kept args files h)
      (check_calls_kept keytool path rest (keytool args files).1 kept)
  where
    after : Bool → Outcome SslError (Unit {0})
    after ok = if ok then returned tt else raised called_process_error

    next : Outcome SslError (Unit {0}) → Outcome SslError (Unit {0}) × List Text
    next r = elim r [
      | returned _ ↦ check_calls keytool rest (keytool args files).1
      | raised e ↦ (raised e, (keytool args files).1)
    ]

    go :
        (ok : Bool)
        → exists path (keytool args files).1 ≡ true
        → (exists path (keytool args files).1 ≡ true
            → exists path (check_calls keytool rest (keytool args files).1).1 ≡ true)
        → exists path (next (after ok)).1 ≡ true
    go true k rec = rec k
    go false k rec = k

-- The commands of `generate_ssl_stores`.
abbrev commands : Text → Text → List (List Text)
commands base_dir passphrase =
    genkeypair base_dir passphrase
    ∷ export_cert base_dir passphrase
    ∷ import_cert base_dir passphrase
    ∷ []

abbrev unless_there :
    Keytool → Text → Text → List Text → Bool → Outcome SslError (Unit {0}) × List Text
unless_there keytool base_dir passphrase files b =
    if b then (returned tt, files) else check_calls keytool (commands base_dir passphrase) files

check_calls_made :
    (keytool : Keytool) (path : Text) (first : List Text) (rest : List (List Text))
    (files : List Text)
    → ((args fs : List Text) → exists path fs ≡ true → exists path (keytool args fs).1 ≡ true)
    → (keytool first files).0 ≡ true
    → exists path (keytool first files).1 ≡ true
    → exists path (check_calls keytool (first ∷ rest) files).1 ≡ true
unfolding check_calls check_call
check_calls_made keytool path first rest files kept ok made =
    ap (λ b. exists path (next (after b)).1) ok
    ∙ check_calls_kept keytool path rest (keytool first files).1 kept made
  where
    after : Bool → Outcome SslError (Unit {0})
    after b = if b then returned tt else raised called_process_error

    next : Outcome SslError (Unit {0}) → Outcome SslError (Unit {0}) × List Text
    next r = elim r [
      | returned _ ↦ check_calls keytool rest (keytool first files).1
      | raised e ↦ (raised e, (keytool first files).1)
    ]

-- When the key store was there, or the first step of a call succeeds, which makes it, the next call
-- returns and changes nothing; so it does after a call that failed behind its first step, which is not
-- made up for. The tool never removes the key store.
pub generate_ssl_stores_again :
    (keytool : Keytool) (base_dir passphrase : Text) (files : List Text)
    → IsKeytool keytool (in_dir base_dir (text "keystore.jks")) base_dir passphrase
    → (exists (in_dir base_dir (text "keystore.jks")) files ≡ true)
      ⊎ ((keytool (genkeypair base_dir passphrase) files).0 ≡ true)
    → generate_ssl_stores keytool base_dir passphrase
        (generate_ssl_stores keytool base_dir passphrase files).1
      ≡ (returned tt, (generate_ssl_stores keytool base_dir passphrase files).1)
unfolding generate_ssl_stores
generate_ssl_stores_again keytool base_dir passphrase files K first =
    ap
      (unless_there keytool base_dir passphrase
        (generate_ssl_stores keytool base_dir passphrase files).1)
      (there (exists store files) refl)
  where
    store : Text
    store = in_dir base_dir (text "keystore.jks")

    made :
        exists store files ≡ false
        → (exists store files ≡ true) ⊎ ((keytool (genkeypair base_dir passphrase) files).0 ≡ true)
        → (keytool (genkeypair base_dir passphrase) files).0 ≡ true
    made e (inl h) = absurd (true-ne-false (sym h ∙ e))
    made e (inr h) = h

    there :
        (b : Bool)
        → exists store files ≡ b
        → exists store (unless_there keytool base_dir passphrase files b).1 ≡ true
    there true e = e
    there false e =
        check_calls_made keytool store (genkeypair base_dir passphrase)
          (export_cert base_dir passphrase ∷ import_cert base_dir passphrase ∷ []) files K.kept
          (made e first) (K.made files e (made e first))
