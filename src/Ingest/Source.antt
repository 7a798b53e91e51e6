-- ===== src/Ingest/Source.antt =====
-- What the ingestion of backend/internal/services/object_store_source.go calls: the bucket with the
-- decoding of its objects, the store, and the device cache. A time is its nanoseconds since 1970.
use tsflow.Prelude.{
  ℕ, String, ◌≡◌, Bool, true, false, ◌&&◌, List, Option, some, ◌==◌, String_eq, ℕ_eq, if◌then◌else◌,
}
use tsflow.Prelude.Maps.{Map}
use tsflow.Aggregate.Flow.{FlowLog, Devices}
use tsflow.Aggregate.Rows.{Aggregates}
use tsflow.Rolling.Cover.{Time}

-- blobObject and flowObject
pub record BlobObject : Type 0 where
  pub key : String
  pub last_modified : Time
  pub size : ℕ

pub record FlowObject : Type 0 where
  pub key : String
  pub last_modified : Time
  pub size : ℕ
  pub log_time : Time

-- Why an object cannot be read: errObjectGone, objectContentError, or anything else
pub data ReadError : Type 0 where
  object_gone object_content other_failure : ReadError

-- permanentReadError
abbrev pub permanent_read_error : ReadError → Bool
permanent_read_error object_gone = true
permanent_read_error object_content = true
permanent_read_error other_failure = false

pub data ReadResult (N : Type 0) : Type 0 where
  read : List FlowLog → List N → ReadResult N
  unreadable : ReadError → ReadResult N

-- database.ObjectIngestResult; an object that is given up has no aggregates.
pub record IngestResult (N : Type 0) : Type 0 where
  pub key : String
  pub last_modified : Time
  pub size : ℕ
  pub flow_count : ℕ
  pub nodes : List N
  pub aggregates : Option Aggregates

-- The outside; `none` is an error. `N` is the metadata of a node, which has an identity.
pub record Outside (W N : Type 0) : Type 0 where
  pub cancelled : W → Bool
  pub list : String → W → Option (List BlobObject)
  pub read_flow_logs : String → W → W × ReadResult N
  pub devices : W → Devices
  pub upsert_devices : List N → W → W
  pub is_object_ingested : String → W → Option Bool
  pub commit_object_ingest : IngestResult N → W → W × Bool
  pub objects_needing_metadata : ℕ → W → Option (List String)
  pub upsert_node_metadata : List N → W → W × Bool
  pub mark_hydrated : String → List String → W → W × Bool
  pub node_id : N → String

-- What the guard against a second ingestion answers: a commit that succeeds adds its object, and
-- nothing else changes an answer.
pub record Lawful {W N : Type 0} (o : Outside W N) : Type 0 where
  pub read_keeps :
      (k key : String) (w : W)
      → o.is_object_ingested k (o.read_flow_logs key w).0 ≡ o.is_object_ingested k w
  pub devices_keep :
      (k : String) (nodes : List N) (w : W)
      → o.is_object_ingested k (o.upsert_devices nodes w) ≡ o.is_object_ingested k w
  pub committed :
      (k : String) (r : IngestResult N) (w : W)
      → o.is_object_ingested k (o.commit_object_ingest r w).0 ≡ (
          if (o.commit_object_ingest r w).1 && r.key == k
          then some true
          else o.is_object_ingested k w)

-- ObjectStoreConfig, without what names the bucket
pub record ObjectStoreConfig : Type 0 where
  pub prefix : String
  pub lookback : ℕ
  pub max_objects : ℕ

-- ObjectStoreSource with its counts of failed reads, and what the poller's rolling cache was given,
-- latest first
pub record Ingest (W : Type 0) : Type 0 where
  pub world : W
  pub read_failures : Map String ℕ
  pub cached : List Aggregates
