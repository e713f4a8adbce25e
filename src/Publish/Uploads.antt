-- ===== src/Publish/Uploads.antt =====
-- src/lib.rs, src/blossom.rs: the uploader of a run is the one of src/blossom.rs.
use narwal_publisher.Prelude.{List, [], Bytes, Text, Result, Bool, true, false, ok, err}
use narwal_publisher.Blossom.{Network, Session, UploadError, upload, new_session}
use narwal_publisher.Publish.{PublishConfig, PublishError}
use narwal_publisher.Publish.Plan.{Outside}
use narwal_publisher.Publish.Steps.{Uploader, World, publish}

abbrev pub succeeded : Result UploadError Text → Bool
succeeded (ok hash) = true
succeeded (err e) = false

-- `BlossomUploader::upload_bytes` on the servers of the run
unfoldable pub blossom_uploader : Network → (Bytes → Text) → List Text → Uploader Session
unfolding upload
blossom_uploader network hash_hex servers = record {
  upload_bytes =
      λ bytes s. let (r, t) = upload network hash_hex servers bytes s in (succeeded r, t);
}

-- a whole run: the uploader is made for the servers of the configuration, and starts without a token
unfoldable pub publish_to_blossom :
    Network
    → (Bytes → Text)
    → Outside
    → PublishConfig
    → Result PublishError (Unit {0}) × World Session
unfolding blossom_uploader publish
publish_to_blossom network hash_hex out config =
    publish (blossom_uploader network hash_hex config.blossom_servers) out config
      (record { uploader = new_session; actions = [] })
