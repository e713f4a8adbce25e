-- ===== src/Blossom/Put.antt =====
-- src/blossom.rs: the exchanges of the PUT requests to one server.
use narwal_publisher.Prelude.{
  ◌≡◌, inl, inr, refl, subst, [], ◌∷◌, Bool, true, false, Option, none, some, Bytes, Text, Result,
  ok, err, arith, ◌==◌, Bool-cases, ◌∙◌,
}
use narwal_publisher.Prelude.Effects.{◌>>=◌, lift, continue}
use narwal_publisher.BlossomFetch.{is_success}
use narwal_publisher.Blossom.{upload_url}
use narwal_publisher.Blossom.{
  put_blob, Network, Session, UploadError, PutReply, auth_header, put_upload, put_with_auth,
  retry_unauthorized, judge_reply, upload_to_server, note, or_upload_error, network_error,
  invalidate_token,
}
use narwal_publisher.Blossom.Exchanges.{target, Added, Added-trans, Added-le}
use narwal_publisher.Blossom.AuthHeader.{auth_header-Added}

-- whether a PUT was answered with success
abbrev pub put_ok : Result UploadError PutReply → Bool
put_ok (ok reply) = is_success reply.status
put_ok (err e) = false

abbrev pub is_ok {ℓ} : {A : Type ℓ} → Result UploadError A → Bool
is_ok (ok a) = true
is_ok (err e) = false

module _ (network : Network) (hash_hex : Bytes → Text) where
  judge_reply-is_ok :
      (reply : PutReply) → is_success reply.status ≡ is_ok (judge_reply network hash_hex reply)
  unfolding judge_reply
  judge_reply-is_ok reply = ground arith

  module _ (server : Text) (bytes : Bytes) (hash : Text) where
    put_upload-Added :
        (auth : Text) (s : Session)
        → Added
            (target network server bytes hash)
            1
            (put_ok (put_upload network hash_hex server bytes hash auth s).0)
            s
            (put_upload network hash_hex server bytes hash auth s).1
    unfolding put_upload
    put_upload-Added auth s =
        replied (network.put s.exchanges (upload_url server) hash bytes auth) refl
      where
        replied :
            (reply : Option PutReply)
            → reply ≡ network.put s.exchanges (upload_url server) hash bytes auth
            → Added
                (target network server bytes hash)
                1
                (put_ok (or_upload_error reply network_error))
                s
                (note (put_blob (upload_url server) hash bytes auth reply) s)
        replied none same = record {
          new = put_blob (upload_url server) hash bytes auth none ∷ [];
          same = refl;
          few = omega arith;
          found = refl;
          addressed = ((refl, refl, refl, same), tt);
        }
        replied (some reply) same = record {
          new = put_blob (upload_url server) hash bytes auth (some reply) ∷ [];
          same = refl;
          few = omega arith;
          found = ground arith;
          addressed = ((refl, refl, refl, same), tt);
        }

    put_with_auth-Added :
        (s : Session)
        → Added
            (target network server bytes hash)
            1
            (put_ok (put_with_auth network hash_hex server bytes hash s).0)
            s
            (put_with_auth network hash_hex server bytes hash s).1
    unfolding put_with_auth
    put_with_auth-Added s =
        headed (auth_header network hash_hex s)
          (auth_header-Added network hash_hex (target network server bytes hash) s)
      where
        headed :
            (p : Result UploadError Text × Session)
            → Added (target network server bytes hash) 0 false s p.1
            → Added
                (target network server bytes hash)
                1
                (put_ok (continue p (put_upload network hash_hex server bytes hash)).0)
                s
                (continue p (put_upload network hash_hex server bytes hash)).1
        headed (err e, t) h =
            Added-le (target network server bytes hash) 0 1 false s t (omega arith) h
        headed (ok auth, t) h =
            Added-trans (target network server bytes hash) 0 1 false
              (put_ok (put_upload network hash_hex server bytes hash auth t).0) s t
              (put_upload network hash_hex server bytes hash auth t).1 h (put_upload-Added auth t)

    -- the reply that counts, after a first one
    retry-Added :
        (reply : PutReply) (s t : Session)
        → Added (target network server bytes hash) 1 (is_success reply.status) s t
        → Added
            (target network server bytes hash)
            2
            (put_ok (retry_unauthorized network hash_hex server bytes hash reply t).0)
            s
            (retry_unauthorized network hash_hex server bytes hash reply t).1
    unfolding retry_unauthorized invalidate_token
    retry-Added reply s t h = elim (Bool-cases (reply.status == 401)) [
      | inl unauthorized ↦
          let again =
            put_with_auth network hash_hex server bytes hash (record t { auth_token = none }) in
          rw unauthorized (
            Added-trans (target network server bytes hash) 1 1 false (put_ok again.0) s
              (record t { auth_token = none }) again.1
              (record {
                new = h.new;
                same = h.same;
                few = h.few;
                found = h.found ∙ ground arith;
                addressed = h.addressed;
              })
              (put_with_auth-Added (record t { auth_token = none })))
      | inr other ↦ rw other (
          Added-le (target network server bytes hash) 1 2 (is_success reply.status) s t
            (omega arith) h)
    ]

    pub upload_to_server-Added :
        (s : Session)
        → Added
            (target network server bytes hash)
            2
            (is_ok (upload_to_server network hash_hex server bytes hash s).0)
            s
            (upload_to_server network hash_hex server bytes hash s).1
    unfolding upload_to_server
    upload_to_server-Added s =
        tried (put_with_auth network hash_hex server bytes hash s) (put_with_auth-Added s)
      where
        judged :
            (p : Result UploadError PutReply × Session)
            → Added (target network server bytes hash) 2 (put_ok p.0) s p.1
            → Added
                (target network server bytes hash)
                2
                (is_ok (continue p (λ reply. lift (judge_reply network hash_hex reply))).0)
                s
                (continue p (λ reply. lift (judge_reply network hash_hex reply))).1
        judged (err e, t) h = h
        judged (ok reply, t) h =
            subst (λ b. Added (target network server bytes hash) 2 b s t) (judge_reply-is_ok reply)
              h

        tried :
            (p : Result UploadError PutReply × Session)
            → Added (target network server bytes hash) 1 (put_ok p.0) s p.1
            → Added
                (target network server bytes hash)
                2
                (is_ok
                  (continue p (λ first.
                    retry_unauthorized network hash_hex server bytes hash first >>= λ reply.
                    lift (judge_reply network hash_hex reply))).0)
                s
                (continue p (λ first.
                  retry_unauthorized network hash_hex server bytes hash first >>= λ reply.
                  lift (judge_reply network hash_hex reply))).1
        tried (err e, t) h =
            Added-le (target network server bytes hash) 1 2 false s t (omega arith) h
        tried (ok first, t) h =
            judged (retry_unauthorized network hash_hex server bytes hash first t)
              (retry-Added first s t h)
