-- ===== src/Issuer/Certify/Keyed.antt =====
-- Where the hash of a certificate's key comes from (`enroll` of server/token_issuer.py).
use evgenium_network_linux.Prelude.{
  String, [], ◌∷◌, ◌<>◌, ◌≡◌, >>=-eq-ok, continue-eq-ok, nat_eq, string_eq, ok, pure_inj, sym,
}
use evgenium_network_linux.Issuer.Host.{
  Host, Outcome, World, change, exec_input, make_folder, run, set_mode, write_text,
}
use evgenium_network_linux.Issuer.Certify.{checked_rsa, folder_of, key_hash_of}

module _ {E : Type 0} (host : Host E) where
  -- From `w` on, the request `csr` was written to the disk and verified, openssl read `key` out of
  -- it, the key is RSA of 3072 or 4096 bits, and `h` is the key's hash.
  pub record Keyed (identity csr : String) (w : World E) (h : String) : Type 0 where
    pub key : String
    pub checked : String
    pub rsa : Outcome
    pub w1 : World E
    pub w2 : World E
    pub w3 : World E
    pub w4 : World E
    pub w5 : World E
    pub w6 : World E
    pub made : change host (make_folder (folder_of identity)) w ≡ (ok tt, w1)
    pub wrote : change host (write_text (folder_of identity <> "/client.csr") csr) w1 ≡ (ok tt, w2)
    pub private : change host (set_mode (folder_of identity <> "/client.csr")) w2 ≡ (ok tt, w3)
    pub verified :
        run host
          ("openssl"
            ∷ "req"
            ∷ "-in"
            ∷ (folder_of identity <> "/client.csr")
            ∷ "-noout"
            ∷ "-verify"
            ∷ [])
          w3
        ≡ (ok checked, w4)
    pub read :
        run host
          ("openssl"
            ∷ "req"
            ∷ "-in"
            ∷ (folder_of identity <> "/client.csr")
            ∷ "-noout"
            ∷ "-pubkey"
            ∷ [])
          w4
        ≡ (ok key, w5)
    pub examined :
        exec_input host ("openssl" ∷ "pkey" ∷ "-pubin" ∷ "-text" ∷ "-noout" ∷ []) key w5
        ≡ (ok rsa, w6)
    pub strong : checked_rsa rsa ≡ ok tt
    pub hash : h ≡ host.sha256 key

  pub key_hash_of_lem :
      (identity csr : String) (w w' : World E) (h : String)
      → key_hash_of host identity csr w ≡ (ok h, w')
      → Keyed identity csr w h
  unfolding key_hash_of
  key_hash_of_lem identity csr w w' h e =
      let request = folder_of identity <> "/client.csr" in
      let (t1, w1, e1, r1) =
        >>=-eq-ok (change host (make_folder (folder_of identity))) _ w w' h e in
      let (t2, w2, e2, r2) = >>=-eq-ok (change host (write_text request csr)) _ w1 w' h r1 in
      let (t3, w3, e3, r3) = >>=-eq-ok (change host (set_mode request)) _ w2 w' h r2 in
      let (out, w4, e4, r4) =
        >>=-eq-ok (run host ("openssl" ∷ "req" ∷ "-in" ∷ request ∷ "-noout" ∷ "-verify" ∷ [])) _ w3
          w' h r3 in
      let (key, w5, e5, r5) =
        >>=-eq-ok (run host ("openssl" ∷ "req" ∷ "-in" ∷ request ∷ "-noout" ∷ "-pubkey" ∷ [])) _ w4
          w' h r4 in
      let (rsa, w6, e6, r6) =
        >>=-eq-ok (exec_input host ("openssl" ∷ "pkey" ∷ "-pubin" ∷ "-text" ∷ "-noout" ∷ []) key) _
          w5 w' h r5 in
      let (u, good, r7) = continue-eq-ok (checked_rsa rsa) w6 w' _ h r6 in
      record {
        key = key;
        checked = out;
        rsa = rsa;
        w1 = w1;
        w2 = w2;
        w3 = w3;
        w4 = w4;
        w5 = w5;
        w6 = w6;
        made = e1;
        wrote = e2;
        private = e3;
        verified = e4;
        read = e5;
        examined = e6;
        strong = good;
        hash = sym (pure_inj r7);
      }
