-- ===== src/Handshake/Honest.antt =====
-- The two programs of MessengerApp with each other, on a network that delivers what is sent.
use lib_crypt_safe_messenger.Common.{
  [], ◌∷◌, List, ◌≡◌, ◌≢◌, ap, ◌∙◌, String, Bytes, codes, length-append, pos, arith, All,
}
use lib_crypt_safe_messenger.Common.Proc.{Machine, returns}
use lib_crypt_safe_messenger.Common.Ends.{Ends-returns, IsRuntime}
use lib_crypt_safe_messenger.OpenSsl.Cipher.{CipherLib, WritesWithin, IsGcm, IsWorking}
use lib_crypt_safe_messenger.OpenSsl.Pkey.{PkeyLib}
use lib_crypt_safe_messenger.OpenSsl.Curve.{IsP256, spki_header}
use lib_crypt_safe_messenger.OpenSsl.Mac.{IsHmac}
use lib_crypt_safe_messenger.KeyExchange.Ecdh.{compute_shared_key}
use lib_crypt_safe_messenger.KeyExchange.Steps.{public_der}
use lib_crypt_safe_messenger.KeyExchange.Hex.{IsSha256}
use lib_crypt_safe_messenger.KeyExchange.Peers.{shared_key_agreement}
use lib_crypt_safe_messenger.Engine.Sessions.{IsKey, compute_shared_key-IsKey}
use lib_crypt_safe_messenger.Handshake.{
  awaits_client_key, awaits_client_confirm, serves, awaits_server_key, awaits_server_confirm,
  client_over, server_step, server_run, client_step, messages,
}
use lib_crypt_safe_messenger.Handshake.Turns.{
  InFrame, server_run_step, talk, server_keyed_run, server_confirmed_run, client_confirmed_run,
  client_keyed_run,
}

module _ {World : Type 0} (ciphers : CipherLib World) (lib : PkeyLib World) where
  public_der-InFrame : (p : IsP256 lib) (k : lib.Pkey) → p.OnCurve k → InFrame (public_der lib p k)
  public_der-InFrame p k on = (
    omega (arith, length-append spki_header (p.point k), p.length-point k on),
    omega (arith, length-append spki_header (p.point k), p.length-point k on),
  )

  mac-InFrame : (h : IsHmac lib) (key : Bytes) (label : String) → InFrame (h.mac key (codes label))
  mac-InFrame h key label =
      (omega (arith, h.length-mac key (codes label)), omega (arith, h.length-mac key (codes label)))

  -- What the two programs do with each other's frames, and how long these are.
  pub handshake_frames :
      WritesWithin ciphers
      → IsGcm ciphers
      → IsWorking ciphers
      → ((w : World) → (ciphers.rand_bytes 12 w).0.0 ≢ pos 0)
      → (p : IsP256 lib) → IsSha256 lib
      → IsHmac lib
      → (a b : lib.Pkey) → p.OnCurve a
      → p.OnCurve b
      → (m n : Machine World)
      → let server_pub = public_der lib p b in
        let client_pub = public_der lib p a in
        (confirm : Bytes) × (aes_key : Bytes) × (client_frames : List Bytes) × (n1 : Machine World)
        × (n2 : Machine World) × (m1 : Machine World) × (m2 : Machine World) × (server_step ciphers
              lib
              (awaits_client_key b server_pub)
              client_pub
              m
            ≡ ((awaits_client_confirm aes_key, server_pub ∷ confirm ∷ []), m1))
        × (client_step ciphers lib (awaits_server_key a) server_pub n
            ≡ ((awaits_server_confirm aes_key, []), n1))
        × (client_step ciphers lib (awaits_server_confirm aes_key) confirm n1
            ≡ ((client_over (returns 0), client_frames), n2))
        × (server_run ciphers lib (awaits_client_confirm aes_key) client_frames m1
            ≡ ((serves aes_key messages, []), m2))
        × All InFrame (client_pub ∷ client_frames)
        × All InFrame (server_pub ∷ confirm ∷ [])
  handshake_frames within g works draws p sha h a b ha hb m n =
      let (key, w, v, left, right) = shared_key_agreement lib p a b n m ha hb in
      let hk =
        Ends-returns IsKey IsRuntime (compute_shared_key lib a (public_der lib p b) n)
          (compute_shared_key-IsKey lib sha a (public_der lib p b) n) left in
      let (w1, keyed) =
        server_keyed_run ciphers lib h b (public_der lib p b) (public_der lib p a) key m _ right in
      let (w2, checked) = client_confirmed_run ciphers lib h key (record n { world = w }) hk in
      let (w3, confirmed) = server_confirmed_run ciphers lib h key (record m { world = w1 }) hk in
      let (sealed, n2, sends, sizes, shows) =
        talk ciphers lib within g works draws key hk messages
          (omega arith, (omega arith, (omega arith, tt))) (record n { world = w2 }) in
      let (m2, served) = shows [] (record m { world = w3 }) in
      (
        h.mac key (codes "server_confirm"),
        key,
        h.mac key (codes "client_confirm") ∷ sealed,
        record n { world = w },
        n2,
        record m { world = w1 },
        m2,
        keyed,
        client_keyed_run ciphers lib a (public_der lib p b) key n _ left,
        checked
            ∙ ap (λ r. ((client_over r.0.0, h.mac key (codes "client_confirm") ∷ r.0.1), r.1))
                sends,
        server_run_step ciphers lib (awaits_client_confirm key) (h.mac key (codes "client_confirm"))
            sealed (record m { world = w1 }) confirmed served,
        (public_der-InFrame p a ha, (mac-InFrame h key "client_confirm", sizes)),
        (public_der-InFrame p b hb, (mac-InFrame h key "server_confirm", tt)),
      )

  -- A server and a client with keys on the curve, over libraries in working order, whose frames arrive
  -- whole and in order. On the client's public key, the server sends its own and a confirmation; on these
  -- two, the client sends its confirmation and its three texts, sealed, and ends with exit code 0; and on
  -- all the client's frames the server serves and has shown exactly the three texts, in their order. It
  -- needs RAND_bytes never to return 0.
  pub handshake_and_texts :
      WritesWithin ciphers
      → IsGcm ciphers
      → IsWorking ciphers
      → ((w : World) → (ciphers.rand_bytes 12 w).0.0 ≢ pos 0)
      → (p : IsP256 lib) → IsSha256 lib
      → IsHmac lib
      → (a b : lib.Pkey) → p.OnCurve a
      → p.OnCurve b
      → (m n : Machine World)
      → let server_pub = public_der lib p b in
        let client_pub = public_der lib p a in
        (confirm : Bytes) × (aes_key : Bytes) × (client_frames : List Bytes) × (n1 : Machine World)
        × (n2 : Machine World) × (m1 : Machine World) × (m2 : Machine World) × (server_step ciphers
              lib
              (awaits_client_key b server_pub)
              client_pub
              m
            ≡ ((awaits_client_confirm aes_key, server_pub ∷ confirm ∷ []), m1))
        × (client_step ciphers lib (awaits_server_key a) server_pub n
            ≡ ((awaits_server_confirm aes_key, []), n1))
        × (client_step ciphers lib (awaits_server_confirm aes_key) confirm n1
            ≡ ((client_over (returns 0), client_frames), n2))
        × (server_run ciphers lib (awaits_client_confirm aes_key) client_frames m1
            ≡ ((serves aes_key messages, []), m2))
  handshake_and_texts within g works draws p sha h a b ha hb m n =
      let (confirm, key, frames, n1, n2, m1, m2, keyed, taken, checked, served, _, _) =
        handshake_frames within g works draws p sha h a b ha hb m n in
      (confirm, key, frames, n1, n2, m1, m2, keyed, taken, checked, served)
