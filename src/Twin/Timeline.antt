-- ===== src/Twin/Timeline.antt =====
-- twin-protocol/src/timeline.rs: the captures of a device or a tile in their order. `F` stands for
-- `f32`.
use sovereign_stack.Base.{
  ℕ, ◌+◌, ◌-◌, ◌%◌, ◌^◌, Bool, ◌&&◌, Option, none, some, List, [], ◌∷◌, ◌++◌, Text, text, length,
  filter, ltb, leb, if◌then◌else◌, get_elem?,
}

pub record TwinTimelineEntry (F : Type 0) : Type 0 where
  pub snapshot_id : Text
  pub twin_id : Text
  pub receipt_id : Text
  pub device_id : Text
  pub timestamp : ℕ
  pub odu_tile : Option Text
  pub sui_object_id : Option Text
  pub quality : F
  pub modalities : List Text

pub record TwinTimeline (F : Type 0) : Type 0 where
  pub timeline_id : Text
  pub label : Option Text
  pub entries : List (TwinTimelineEntry F)
  pub version : ℕ

-- what `entry_from_capture` names the modalities
unfoldable pub modalities_of : (has_splat has_lidar : Bool) → List Text
modalities_of has_splat has_lidar =
    (text "rgb" ∷ [])
    ++ ((if has_lidar then text "lidar" ∷ [] else [])
        ++ ((if has_splat then text "splat" ∷ [] else []) ++ (text "telemetry" ∷ text "imu" ∷ [])))

module _ {F : Type 0} where
  unfoldable pub new_timeline : Text → TwinTimeline F
  new_timeline timeline_id = record {
    timeline_id = timeline_id;
    label = none;
    entries = [];
    version = 0;
  }

  unfoldable pub with_label : TwinTimeline F → Text → TwinTimeline F
  with_label t label = record t { label = some label }

  -- `sort_by_key` by timestamp, which is stable: an entry stays before those of its time that come
  -- after it
  unfoldable pub put : TwinTimelineEntry F → List (TwinTimelineEntry F) → List (TwinTimelineEntry F)
  put e [] = e ∷ []
  put e (x ∷ xs) =
      let rest = put e xs in if leb e.timestamp x.timestamp then e ∷ x ∷ xs else x ∷ rest

  unfoldable pub sort_by_timestamp : List (TwinTimelineEntry F) → List (TwinTimelineEntry F)
  sort_by_timestamp [] = []
  sort_by_timestamp (e ∷ es) = put e (sort_by_timestamp es)

  -- The version is a `u32` and wraps.
  unfoldable pub append : TwinTimeline F → TwinTimelineEntry F → TwinTimeline F
  append t e = record t {
    version = (t.version + 1) % 2 ^ 32;
    entries = sort_by_timestamp (t.entries ++ (e ∷ []));
  }

  unfoldable pub last : List (TwinTimelineEntry F) → Option (TwinTimelineEntry F)
  last [] = none
  last (e ∷ []) = some e
  last (e ∷ x ∷ xs) = last (x ∷ xs)

  unfoldable pub latest : TwinTimeline F → Option (TwinTimelineEntry F)
  latest t = last t.entries

  unfoldable pub earliest : TwinTimeline F → Option (TwinTimelineEntry F)
  earliest t = get_elem? t.entries 0

  abbrev pub between : Option (TwinTimelineEntry F) → Option (TwinTimelineEntry F) → Option ℕ
  between (some a) (some b) = some (b.timestamp - a.timestamp)
  between (some a) none = none
  between none b = none

  unfoldable pub span_ms : TwinTimeline F → Option ℕ
  span_ms t = if ltb (length t.entries) 2 then none else between (earliest t) (latest t)

  unfoldable pub window : TwinTimeline F → (from_ms to_ms : ℕ) → List (TwinTimelineEntry F)
  window t from_ms to_ms = filter (λ e. leb from_ms e.timestamp && leb e.timestamp to_ms) t.entries

  -- `uuid` is the UUID of the snapshot
  unfoldable pub entry_from_capture :
      (uuid twin_id receipt_id device_id : Text) (timestamp : ℕ)
      (odu_tile sui_object_id : Option Text)
      → F
      → (has_splat has_lidar : Bool) → TwinTimelineEntry F
  entry_from_capture uuid twin_id receipt_id device_id timestamp odu_tile sui_object_id quality
        has_splat has_lidar =
      record {
        snapshot_id = text "snap:" ++ uuid;
        twin_id = twin_id;
        receipt_id = receipt_id;
        device_id = device_id;
        timestamp = timestamp;
        odu_tile = odu_tile;
        sui_object_id = sui_object_id;
        quality = quality;
        modalities = modalities_of has_splat has_lidar;
      }

unfoldable pub device_timeline_id : Text → Text
device_timeline_id device_id = text "timeline:" ++ device_id

unfoldable pub tile_timeline_id : Text → Text
tile_timeline_id tile_id = text "timeline:" ++ tile_id
