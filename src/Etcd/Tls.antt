-- ===== src/Etcd/Tls.antt =====
-- `LoadTLSConfig` (internal/etcd/health.go).
use etcd_snapshot_driver.Common.{
  after_call, Str, lit, Bool, true, false, List, [], ◌∷◌, Reply, Reply-cases, value, LibError,
  Error, errorf, wrapped, lib, ok, Act, pure, throw, call_or, ◌>>=◌, ◌≡◌, ◌↔◌, sym, ap, ◌∙◌, inl,
  inr, arith,
}

-- What the function calls: tls.LoadX509KeyPair, os.ReadFile, x509.NewCertPool and AppendCertsFromPEM,
-- which says whether it found a certificate in the text.
pub record CertFiles : Type 1 where
  pub State : Type 0
  pub Certificate : Type 0
  pub CertPool : Type 0
  pub load_x509_key_pair : Str → Str → State → Reply Certificate × State
  pub read_file : Str → State → Reply Str × State
  pub new_cert_pool : CertPool
  pub append_certs_from_pem : Str → CertPool → Bool × CertPool

-- The fields of `tls.Config` that are set.
pub record TlsConfig (F : CertFiles) : Type 0 where
  pub certificates : List F.Certificate
  pub root_cas : F.CertPool

same_value : {A : Type 0} {r : Reply A} {a b : A} → r ≡ value a → r ≡ value b → a ≡ b
same_value e f = cc

module _ (F : CertFiles) where
  abbrev pub pool_of : Bool × F.CertPool → Act F.State F.CertPool
  pool_of (true, pool) = pure pool
  pool_of (false, _) = throw (errorf (lit "failed to parse CA certificate"))

  unfoldable pub load_tls_config : Str → Str → Str → Act F.State (TlsConfig F)
  load_tls_config cert_path key_path ca_path = do
    cert ←
        call_or (F.load_x509_key_pair cert_path key_path)
          (λ e. wrapped (lit "failed to load client certificates") (lib e))
    ca_cert ←
        call_or (F.read_file ca_path) (λ e. wrapped (lit "failed to read CA certificate") (lib e))
    ca_cert_pool ← pool_of (F.append_certs_from_pem ca_cert F.new_cert_pool)
    pure (record { certificates = cert ∷ []; root_cas = ca_cert_pool })

  -- What follows the reading of the CA file.
  abbrev configured : F.Certificate → Str → Act F.State (TlsConfig F)
  configured cert ca_cert = pool_of (F.append_certs_from_pem ca_cert F.new_cert_pool) >>= λ pool.
      pure (record { certificates = cert ∷ []; root_cas = pool })

  pool-ok :
      (cert : F.Certificate) (p : Bool × F.CertPool) (s : F.State) (c : TlsConfig F)
      → (((pool_of p >>= λ pool. pure (record { certificates = cert ∷ []; root_cas = pool })) s).0
          ≡ ok c)
        ↔ ((p ≡ (true, c.root_cas)) × (c.certificates ≡ cert ∷ []))
  pool-ok cert (true, pool) s c = ((λ h. ground arith), (λ h. ground arith))
  pool-ok cert (false, pool) s c = ((λ h. ground arith), (λ h. ground arith))

  both_read :
      (cert_path key_path ca_path : Str) (s : F.State) (cert : F.Certificate) (pem : Str)
      → (F.load_x509_key_pair cert_path key_path s).0 ≡ value cert
      → (F.read_file ca_path (F.load_x509_key_pair cert_path key_path s).1).0 ≡ value pem
      → load_tls_config cert_path key_path ca_path s
        ≡ configured cert pem (F.read_file ca_path (F.load_x509_key_pair cert_path key_path s).1).1
  unfolding load_tls_config
  both_read cert_path key_path ca_path s cert pem e e' =
      after_call (F.load_x509_key_pair cert_path key_path)
        (λ x. wrapped (lit "failed to load client certificates") (lib x))
        (λ c. call_or (F.read_file ca_path) unread >>= configured c) s e
      ∙ after_call (F.read_file ca_path) unread (configured cert)
          (F.load_x509_key_pair cert_path key_path s).1 e'
    where
      unread : LibError → Error
      unread x = wrapped (lit "failed to read CA certificate") (lib x)

  -- The TLS configuration is made exactly if the key pair is loaded, the CA file is then read, and there
  -- is a certificate in its text; it has the certificate of the key pair, and a pool with those of the
  -- text.
  pub load_tls_config-ok_iff :
      (cert_path key_path ca_path : Str) (s : F.State) (c : TlsConfig F)
      → ((load_tls_config cert_path key_path ca_path s).0 ≡ ok c) ↔ (
          let (loaded, s₁) = F.load_x509_key_pair cert_path key_path s in
          (cert : F.Certificate) × (pem : Str) × (loaded ≡ value cert)
          × ((F.read_file ca_path s₁).0 ≡ value pem)
          × (F.append_certs_from_pem pem F.new_cert_pool ≡ (true, c.root_cas))
          × (c.certificates ≡ cert ∷ []))
  unfolding load_tls_config
  load_tls_config-ok_iff cert_path key_path ca_path s c =
      let s₁ = (F.load_x509_key_pair cert_path key_path s).1 in
      elim (Reply-cases (F.load_x509_key_pair cert_path key_path s).0) [
        | inl (cert, e) ↦ elim (Reply-cases (F.read_file ca_path s₁).0) [
          | inl (pem, e') ↦
              let (there, back) =
                pool-ok cert (F.append_certs_from_pem pem F.new_cert_pool)
                  (F.read_file ca_path s₁).1 c in
              let same = ap (λ r. r.0) (both_read cert_path key_path ca_path s cert pem e e') in
              (
                λ h. let (pool, certs) = there (sym same ∙ h) in (cert, pem, e, e', pool, certs),
                λ (cert', pem', f, f', pool, certs).
                    same ∙ back (rw (same_value f' e') at pool, rw (same_value f e) at certs),
              )
          | inr (x, e') ↦ ((λ h. absurd (ground arith)), (λ p. absurd (ground arith)))
        ]
        | inr (x, e) ↦ ((λ h. absurd (ground arith)), (λ p. absurd (ground arith)))
      ]
