-- ===== src/Blossom/OneServer.antt =====
-- src/blossom.rs: the exchanges of one round of the loop over the servers.
use narwal_publisher.Prelude.{
  ℕ, ◌≡◌, inl, inr, refl, [], ◌∷◌, Bool, true, false, Option, none, some, Bytes, Text, Result, ok,
  err, arith, ltb, Bool-cases, length,
}
use narwal_publisher.BlossomFetch.{is_success, blob_url}
use narwal_publisher.Blossom.{upload_url}
use narwal_publisher.Blossom.{
  head_blob, head_upload, Network, Session, UploadError, Outcome, has_blob, failed,
  preflight_size_threshold, upload_to_server, check_exists, preflight_upload, note, settle,
  follow_verdict, try_upload, upload_one,
}
use narwal_publisher.Blossom.Exchanges.{target, Added, Added-trans, Added-none, Added-le}
use narwal_publisher.Blossom.Put.{is_ok, upload_to_server-Added}

abbrev pub is_kept : Outcome → Bool
is_kept has_blob = true
is_kept (failed e) = false

module _ (network : Network) (hash_hex : Bytes → Text) where
  module _ (server : Text) (bytes : Bytes) (hash : Text) where
    settle-Added :
        (limit : ℕ) (s : Session) (p : Result UploadError (Unit {0}) × Session)
        → Added (target network server bytes hash) limit (is_ok p.0) s p.1
        → Added
            (target network server bytes hash)
            limit
            (is_kept (settle network hash_hex server p).0)
            s
            (settle network hash_hex server p).1
    settle-Added limit s (ok _, t) h = h
    settle-Added limit s (err e, t) h = h

    preflight_upload-Added :
        (s : Session)
        → Added
            (target network server bytes hash)
            1
            false
            s
            (preflight_upload network hash_hex server hash (length bytes) s).1
    unfolding preflight_upload
    preflight_upload-Added s = record {
      new =
          head_upload (upload_url server) hash (length bytes)
            (network.preflight s.exchanges (upload_url server) hash (length bytes))
          ∷ [];
      same = refl;
      few = omega arith;
      found = refl;
      addressed = ((refl, refl, refl, refl), tt);
    }

    follow_verdict-Added :
        (verdict : Bool × Option Text) (s : Session)
        → Added
            (target network server bytes hash)
            2
            (is_kept (follow_verdict network hash_hex server bytes hash verdict s).0)
            s
            (follow_verdict network hash_hex server bytes hash verdict s).1
    unfolding follow_verdict
    follow_verdict-Added (true, reason) s =
        settle-Added 2 s (upload_to_server network hash_hex server bytes hash s)
          (upload_to_server-Added network hash_hex server bytes hash s)
    follow_verdict-Added (false, reason) s =
        Added-le (target network server bytes hash) 0 2 false s s (omega arith)
          (Added-none (target network server bytes hash) s s refl)

    asked-Added :
        (p : (Bool × Option Text) × Session) (s : Session)
        → Added (target network server bytes hash) 1 false s p.1
        → Added
            (target network server bytes hash)
            3
            (is_kept (follow_verdict network hash_hex server bytes hash p.0 p.1).0)
            s
            (follow_verdict network hash_hex server bytes hash p.0 p.1).1
    asked-Added (verdict, t) s h =
        let o = follow_verdict network hash_hex server bytes hash verdict t in
        Added-trans (target network server bytes hash) 1 2 false (is_kept o.0) s t o.1 h
          (follow_verdict-Added verdict t)

    try_upload-Added :
        (s : Session)
        → Added
            (target network server bytes hash)
            3
            (is_kept (try_upload network hash_hex server bytes hash s).0)
            s
            (try_upload network hash_hex server bytes hash s).1
    unfolding try_upload
    try_upload-Added s = elim (Bool-cases (ltb preflight_size_threshold (length bytes))) [
      | inr small ↦
          let o =
            settle network hash_hex server
              (upload_to_server network hash_hex server bytes hash s) in
          rw small (
            Added-le (target network server bytes hash) 2 3 (is_kept o.0) s o.1 (omega arith) (
              settle-Added 2 s (upload_to_server network hash_hex server bytes hash s)
                (upload_to_server-Added network hash_hex server bytes hash s)))
      | inl large ↦ rw large (
          asked-Added (preflight_upload network hash_hex server hash (length bytes) s) s
            (preflight_upload-Added s))
    ]

    check_exists-Added :
        (s : Session)
        → Added
            (target network server bytes hash)
            1
            (check_exists network hash_hex server hash s).0
            s
            (check_exists network hash_hex server hash s).1
    unfolding check_exists
    check_exists-Added s = answered (network.head s.exchanges (blob_url server hash)) refl
      where
        answered :
            (reply : Option ℕ)
            → reply ≡ network.head s.exchanges (blob_url server hash)
            → Added
                (target network server bytes hash)
                1
                (elim reply [ none ↦ false | some status ↦ is_success status ])
                s
                (note (head_blob (blob_url server hash) reply) s)
        answered none same = record {
          new = head_blob (blob_url server hash) none ∷ [];
          same = refl;
          few = omega arith;
          found = refl;
          addressed = ((refl, same), tt);
        }
        answered (some status) same = record {
          new = head_blob (blob_url server hash) (some status) ∷ [];
          same = refl;
          few = omega arith;
          found = ground arith;
          addressed = ((refl, same), tt);
        }

    pub upload_one-Added :
        (s : Session)
        → Added
            (target network server bytes hash)
            4
            (is_kept (upload_one network hash_hex server bytes hash s).0)
            s
            (upload_one network hash_hex server bytes hash s).1
    unfolding upload_one
    upload_one-Added s =
        after_check (check_exists network hash_hex server hash s) (check_exists-Added s)
      where
        after_check :
            (p : Bool × Session)
            → Added (target network server bytes hash) 1 p.0 s p.1
            → Added
                (target network server bytes hash)
                4
                (is_kept
                  (elim p.0 as (λ _. Outcome × Session) [
                    | true ↦ (has_blob, p.1)
                    | false ↦ try_upload network hash_hex server bytes hash p.1
                  ]).0)
                s
                (elim p.0 as (λ _. Outcome × Session) [
                  | true ↦ (has_blob, p.1)
                  | false ↦ try_upload network hash_hex server bytes hash p.1
                ]).1
        after_check (true, t) h =
            Added-le (target network server bytes hash) 1 4 true s t (omega arith) h
        after_check (false, t) h =
            let o = try_upload network hash_hex server bytes hash t in
            Added-trans (target network server bytes hash) 1 3 false (is_kept o.0) s t o.1 h
              (try_upload-Added t)
