-- ===== src/Handshake/Guarded.antt =====
-- The client of MessengerApp/client.cpp before any peer: what has to arrive before it sends anything but
-- its public key, and what it sends then.
use lib_crypt_safe_messenger.Common.{
  Pairwise, [], ◌∷◌, ◌++◌, List, ◌≡◌, ◌≢◌, refl, sym, ap, ◌∙◌, subst, inl, inr, Option, none, some,
  ℕ, String, Bytes, bytes_eq, bytes_eq→eq, append-nil, ◌⊎◌,
}
use lib_crypt_safe_messenger.Common.Proc.{Machine, Outcome, returns, throws, faults}
use lib_crypt_safe_messenger.OpenSsl.Cipher.{CipherLib}
use lib_crypt_safe_messenger.OpenSsl.Pkey.{PkeyLib}
use lib_crypt_safe_messenger.KeyExchange.Ecdh.{compute_shared_key}
use lib_crypt_safe_messenger.KeyExchange.Fingerprint.{compute_session_confirmation}
use lib_crypt_safe_messenger.Cryptor
use lib_crypt_safe_messenger.Handshake.{
  Client, awaits_server_key, client_over, turn, client_keyed, client_checks, client_talks,
  client_confirmed, client_step, client_run, sent_text, send_texts, messages,
}
use lib_crypt_safe_messenger.Handshake.Accepted.{
  Derived, and_then-returns, new_cryptor-returns, passed,
}

module _ {World : Type 0} (ciphers : CipherLib World) (lib : PkeyLib World) where
  -- The confirmation is what the client computes from the key and the label.
  abbrev pub Labelled : Bytes → String → Bytes → Type 0
  Labelled aes_key label confirm =
      (m : Machine World) × (n : Machine World) × (compute_session_confirmation lib aes_key label m
        ≡ (returns confirm, n))

  abbrev pub Seals : Bytes → Bytes → Bytes → Type 0
  Seals aes_key sealed text =
      (m : Machine World) × (n : Machine World) × (Cryptor.encrypt ciphers aes_key text m
        ≡ (returns sealed, n))

  -- The frames are a beginning of the texts, sealed in their order, and the whole of them where the code
  -- is 0.
  abbrev pub Begins : Bytes → List Bytes → Outcome ℕ → List Bytes → Type 0
  Begins aes_key texts o sealed =
      (done : List Bytes) × (left : List Bytes) × (texts ≡ done ++ left)
      × Pairwise (Seals aes_key) sealed done
      × ((left ≡ []) ⊎ (o ≢ returns 0))

  sent_text-Begins :
      (key text : Bytes) (texts : List Bytes) (m : Machine World)
      (r : Outcome Bytes × Machine World)
      → Cryptor.encrypt ciphers key text m ≡ r
      → ((n : Machine World)
          → let s = send_texts ciphers lib key texts n in Begins key texts s.0.0 s.0.1)
      → let s = sent_text ciphers lib r (send_texts ciphers lib key texts) in
        Begins key (text ∷ texts) s.0.0 s.0.1
  sent_text-Begins key text texts m (returns sealed, n) e rest =
      let (done, left, whole, each, last) = rest n in
      (text ∷ done, left, ap (λ t. text ∷ t) whole, ((m, n, e), each), last)
  sent_text-Begins key text texts m (throws x, n) e rest =
      ([], text ∷ texts, refl, tt, inr (λ h. cc h))
  sent_text-Begins key text texts m (faults, n) e rest =
      ([], text ∷ texts, refl, tt, inr (λ h. cc h))

  send_texts-Begins :
      (key : Bytes) (texts : List Bytes) (m : Machine World)
      → let s = send_texts ciphers lib key texts m in Begins key texts s.0.0 s.0.1
  unfolding send_texts
  send_texts-Begins key [] m = ([], [], refl, tt, inl refl)
  send_texts-Begins key (text ∷ texts) m =
      sent_text-Begins key text texts m _ refl (send_texts-Begins key texts)

  -- What a client that has sent something was sent before, and what it has sent.
  abbrev pub Spoke : lib.Pkey → List Bytes → Client lib.Pkey → List Bytes → Type 0
  Spoke kex frames s sent =
      (server_pub : Bytes) × (confirm : Bytes) × (rest : List Bytes) × (aes_key : Bytes)
      × (own : Bytes) × (sealed : List Bytes) × (o : Outcome ℕ) × (frames
          ≡ server_pub ∷ confirm ∷ rest)
      × Derived ciphers lib kex server_pub aes_key
      × Labelled aes_key "server_confirm" confirm
      × Labelled aes_key "client_confirm" own
      × (s ≡ client_over o)
      × (sent ≡ own ∷ sealed)
      × Begins aes_key messages o sealed

  client_talks-Spoke :
      (kex : lib.Pkey) (server_pub confirm key own : Bytes) (rest : List Bytes) (m : Machine World)
      (r : Outcome Bytes × Machine World)
      → Derived ciphers lib kex server_pub key
      → Labelled key "server_confirm" confirm
      → Labelled key "client_confirm" own
      → Cryptor.new_cryptor key m ≡ r
      → let t = client_talks ciphers lib own r in
        Spoke kex (server_pub ∷ confirm ∷ rest) t.0.0 t.0.1
  client_talks-Spoke kex server_pub confirm key own rest m (returns k, n) d theirs mine e =
      let s = send_texts ciphers lib k messages n in
      let (same, _) = new_cryptor-returns ciphers lib key k m n e in
      let begun =
        subst (λ x. Begins x messages s.0.0 s.0.1) same (send_texts-Begins k messages n) in
      (server_pub, confirm, rest, key, own, s.0.1, s.0.0, refl, d, theirs, mine, refl, refl, begun)
  client_talks-Spoke kex server_pub confirm key own rest m (throws x, n) d theirs mine e = (
    server_pub,
    confirm,
    rest,
    key,
    own,
    [],
    throws x,
    refl,
    d,
    theirs,
    mine,
    refl,
    refl,
    ([], messages, refl, tt, inr (λ h. cc h)),
  )
  client_talks-Spoke kex server_pub confirm key own rest m (faults, n) d theirs mine e = (
    server_pub,
    confirm,
    rest,
    key,
    own,
    [],
    faults,
    refl,
    d,
    theirs,
    mine,
    refl,
    refl,
    ([], messages, refl, tt, inr (λ h. cc h)),
  )

  over_run :
      (o : Outcome ℕ) (frames : List Bytes) (m : Machine World)
      → (client_run ciphers lib (client_over o) frames m).0 ≡ (client_over o, [])
  unfolding client_run client_step
  over_run o [] m = refl
  over_run o (frame ∷ frames) m = over_run o frames m

  over_run-Spoke :
      (kex : lib.Pkey) (past : List Bytes) (s : Client lib.Pkey) (sent more : List Bytes)
      (m : Machine World)
      → Spoke kex past s sent
      → let rest = client_run ciphers lib s more m in Spoke kex past rest.0.0 (sent ++ rest.0.1)
  over_run-Spoke kex past s sent more m
        (
          server_pub, confirm, rest, key, own, sealed, o, whole, d, theirs, mine, over, sends,
          begun,
        ) =
      let still : (client_run ciphers lib s more m).0 ≡ (client_over o, []) =
        ap (λ x. (client_run ciphers lib x more m).0) over ∙ over_run o more m in
      (
        server_pub,
        confirm,
        rest,
        key,
        own,
        sealed,
        o,
        whole,
        d,
        theirs,
        mine,
        ap (λ x. x.0) still,
        ap (λ x. sent ++ x.1) still ∙ append-nil sent ∙ sends,
        begun,
      )

  -- What the client computes in its check, if it returns a confirmation of its own.
  client_checks_returns :
      (key frame own : Bytes) (m n : Machine World)
      → client_checks ciphers lib key frame m ≡ (returns (some own), n)
      → Labelled key "server_confirm" frame × Labelled key "client_confirm" own
  client_checks_returns key frame own m n e =
      let (expected, m1, confirms, rest) =
        and_then-returns (compute_session_confirmation lib key "server_confirm" m) _ _ n e in
      let (equal, run) = passed ciphers lib (bytes_eq frame expected) _ own m1 n rest in
      let (mine, m2, answers, last) =
        and_then-returns (compute_session_confirmation lib key "client_confirm" m1) _ _ n run in
      let same : expected ≡ frame = sym (bytes_eq→eq frame expected equal) in
      let kept : mine ≡ own = cc last in
      (
        (m, m1, confirms ∙ ap (λ x. (returns x, m1)) same),
        (m1, m2, answers ∙ ap (λ x. (returns x, m2)) kept),
      )

  client_confirmed-Spoke :
      (kex : lib.Pkey) (server_pub key confirm : Bytes) (more : List Bytes) (m : Machine World)
      (r : Outcome (Option Bytes) × Machine World)
      → Derived ciphers lib kex server_pub key
      → client_checks ciphers lib key confirm m ≡ r
      → let c = client_confirmed ciphers lib key r in
        let rest = client_run ciphers lib c.0.0 more c.1 in
        c.0.1 ++ rest.0.1 ≢ []
        → Spoke kex (server_pub ∷ confirm ∷ more) rest.0.0 (c.0.1 ++ rest.0.1)
  client_confirmed-Spoke kex server_pub key confirm more m (returns none, n) d e h =
      absurd (h (ap (λ x. x.1) (over_run (returns 1) more n)))
  client_confirmed-Spoke kex server_pub key confirm more m (returns (some own), n) d e h =
      let (theirs, mine) = client_checks_returns key confirm own m n e in
      let c = client_talks ciphers lib own (Cryptor.new_cryptor key n) in
      over_run-Spoke kex (server_pub ∷ confirm ∷ more) c.0.0 c.0.1 more c.1
        (client_talks-Spoke kex server_pub confirm key own more n _ d theirs mine refl)
  client_confirmed-Spoke kex server_pub key confirm more m (throws x, n) d e h =
      absurd (h (ap (λ x. x.1) (over_run (throws x) more n)))
  client_confirmed-Spoke kex server_pub key confirm more m (faults, n) d e h =
      absurd (h (ap (λ x. x.1) (over_run faults more n)))

  client_keyed-Spoke :
      (kex : lib.Pkey) (server_pub : Bytes) (more : List Bytes) (m : Machine World)
      (r : Outcome Bytes × Machine World)
      → compute_shared_key lib kex server_pub m ≡ r
      → let c = turn (client_keyed {Key = lib.Pkey}) r in
        let rest = client_run ciphers lib c.0.0 more c.1 in
        c.0.1 ++ rest.0.1 ≢ [] → Spoke kex (server_pub ∷ more) rest.0.0 (c.0.1 ++ rest.0.1)
  unfolding client_run client_step
  client_keyed-Spoke kex server_pub [] m (returns key, n) e h = absurd (h refl)
  client_keyed-Spoke kex server_pub (confirm ∷ more) m (returns key, n) e h =
      client_confirmed-Spoke kex server_pub key confirm more n _ (m, n, e) refl h
  client_keyed-Spoke kex server_pub more m (throws x, n) e h =
      absurd (h (ap (λ x. x.1) (over_run (throws x) more n)))
  client_keyed-Spoke kex server_pub more m (faults, n) e h =
      absurd (h (ap (λ x. x.1) (over_run faults more n)))

  -- Whoever the server is, and whatever frames arrive: if a client that waits for the server's key sends
  -- anything, then the first frame was a public key whose shared secret with the client's key is the
  -- session's key; the second frame was the very confirmation that the client computes from that key and
  -- the label "server_confirm"; the client is over; and it has sent its own confirmation, computed from
  -- that key and the label "client_confirm", and then a beginning of its three texts, each sealed by
  -- `Cryptor::encrypt` under that key, in their order, which is all three of them if its exit code is 0.
  pub client_guards :
      (kex : lib.Pkey) (frames : List Bytes) (m : Machine World)
      → let r = client_run ciphers lib (awaits_server_key kex) frames m in
        r.0.1 ≢ [] → Spoke kex frames r.0.0 r.0.1
  unfolding client_run client_step
  client_guards kex [] m h = absurd (h refl)
  client_guards kex (server_pub ∷ more) m h = client_keyed-Spoke kex server_pub more m _ refl h
