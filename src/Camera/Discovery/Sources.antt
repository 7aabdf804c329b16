-- ===== src/Camera/Discovery/Sources.antt =====
-- A source of cameras, seen through an aggregator that has no other source.
use smart_dashboard.Base.{
  ◌≡◌, refl, sym, ap, arith, ◌∙◌, Bool, not, ◌||◌, List, [], ◌∷◌, if◌then◌else◌, Option, none, some,
  leb, length, drop, if_keeps,
}
use smart_dashboard.Base.Eq.{bytes_IsEq, bytes_eq}
use smart_dashboard.Base.Assoc.{lookup, remove}
use smart_dashboard.Base.Ordered.{
  assign, IsAscending, lookup-assign, assign-IsAscending, remove-IsAscending,
}
use smart_dashboard.Camera.Discovery.{
  Text, Cameras, Signal, camera_discovered, cameras_cleared, urls_eq, or_empty, get_stream_urls,
  Aggregator, make_aggregated_name, on_provider_cameras_cleared, add_camera, discover_all,
  remove_found, remove_camera, clear, load_entries, load_from_settings,
}
use smart_dashboard.Camera.Discovery.Publisher.{
  Value, update_camera, update_named, on_variable_update, starts_with, publisher_prefix, ends_with,
  streams_suffix, before_slash, parse_stream_urls,
}
use smart_dashboard.Camera.Discovery.Seen.{
  deliver, seen, get-assign, seen-discovered, IsOnly, deliver-IsOnly, over, deliver-discover_all,
  over_empty, cleared_none,
}

-- What the aggregator knows of the source, whose cameras are m.
pub record Agrees (tag : Text) (m : Cameras) (a : Aggregator) : Type 0 where
  pub kept : IsOnly tag a
  pub ascending : IsAscending m
  pub agrees : (k : Text) → seen tag k a ≡ get_stream_urls k m

-- The operations of the two kinds of source.
pub data SourceOp : Type 0 where
  variable_updated : Text → Value → SourceOp
  camera_added : Text → Text → SourceOp
  camera_dropped : Text → SourceOp
  source_cleared : SourceOp
  settings_loaded : List (Text × Text) → SourceOp

over_same : (o p : Option (List Text)) → (o ≡ none → p ≡ none) → over o (or_empty p) ≡ or_empty o
over_same none p h = ap or_empty (h refl)
over_same (some urls) p h = refl

module _ (trimmed : Text → Text) (is_mjpg : Text → Bool) where
  unfoldable pub apply_source : SourceOp → Cameras → Cameras × List Signal
  apply_source (variable_updated key value) m = on_variable_update trimmed is_mjpg key value m
  apply_source (camera_added name url) m = add_camera name url m
  apply_source (camera_dropped name) m = let (m', (out, found)) = remove_camera name m in (m', out)
  apply_source source_cleared m = clear m
  apply_source (settings_loaded settings) m = load_from_settings trimmed settings m

  -- A sequence of operations, whose signals reach the aggregator.
  unfoldable pub run_source : Text → List SourceOp → Cameras × Aggregator → Cameras × Aggregator
  run_source tag [] p = p
  run_source tag (o ∷ os) (m, a) =
      let (m', out) = apply_source o m in run_source tag os (m', deliver tag out a)

  -- The aggregator agrees with the source after a step.
  abbrev StepAgrees : Text → Aggregator → Cameras × List Signal → Type 0
  StepAgrees tag a (m, out) = Agrees tag m (deliver tag out a)

  still-Agrees :
      (tag : Text) (m : Cameras) (a : Aggregator) → Agrees tag m a → StepAgrees tag a (m, [])
  still-Agrees tag m a h = unfold deliver in h

  assign-StepAgrees :
      (tag name : Text) (urls : List Text) (m : Cameras) (a : Aggregator)
      → Agrees tag m a
      → StepAgrees tag a (assign name urls m, camera_discovered name urls ∷ [])
  unfolding deliver
  assign-StepAgrees tag name urls m a h = record {
    kept = deliver-IsOnly tag (camera_discovered name urls ∷ []) a h.kept;
    ascending = assign-IsAscending name urls m h.ascending;
    agrees = λ k.
        seen-discovered tag name k urls a
        ∙ ap (λ us. if bytes_eq name k then urls else us) (h.agrees k)
        ∙ sym (get-assign name k urls m);
  }

  cleared-StepAgrees :
      (tag : Text) (m m' : Cameras) (a : Aggregator)
      → Agrees tag m a
      → IsAscending m'
      → StepAgrees tag a (m', cameras_cleared ∷ discover_all m')
  unfolding deliver get_stream_urls
  cleared-StepAgrees tag m m' a h up = record {
    kept = deliver-IsOnly tag (cameras_cleared ∷ discover_all m') a h.kept;
    ascending = up;
    agrees = λ k.
        deliver-discover_all tag k m' (on_provider_cameras_cleared tag a).0 up
        ∙ ap (λ o. over (lookup k m') (or_empty o))
            (cleared_none tag (make_aggregated_name tag k) a h.kept.0 h.kept.1)
        ∙ over_empty (lookup k m');
  }

  named-StepAgrees :
      (tag : Text) (o : Option Text) (urls : List Text) (m : Cameras) (a : Aggregator)
      → Agrees tag m a
      → StepAgrees tag a (update_named trimmed is_mjpg o urls m)
  unfolding update_named update_camera
  named-StepAgrees tag none urls m a h = still-Agrees tag m a h
  named-StepAgrees tag (some []) urls m a h = still-Agrees tag m a h
  named-StepAgrees tag (some (c ∷ name)) urls m a h =
      if_keeps (StepAgrees tag a) (urls_eq (get_stream_urls (c ∷ name) m) urls) _ _
        (still-Agrees tag m a h) (assign-StepAgrees tag (c ∷ name) urls m a h)

  found-StepAgrees :
      (tag name : Text) (o : Option (List Text)) (m : Cameras) (a : Aggregator)
      → Agrees tag m a
      → let (m', (out, found)) = remove_found name o m in StepAgrees tag a (m', out)
  unfolding remove_found
  found-StepAgrees tag name none m a h = still-Agrees tag m a h
  found-StepAgrees tag name (some urls) m a h =
      cleared-StepAgrees tag m (remove name m) a h (remove-IsAscending name m h.ascending)

  load-IsAscending :
      (es : List (Text × Text)) (m : Cameras)
      → IsAscending m
      → IsAscending (load_entries trimmed es m)
  unfolding load_entries
  load-IsAscending [] m h = h
  load-IsAscending ((name, url) ∷ es) m h =
      if_keeps IsAscending (leb (length (trimmed url)) 0) (load_entries trimmed es m)
        (load_entries trimmed es (assign name (trimmed url ∷ []) m)) (load-IsAscending es m h)
        (load-IsAscending es (assign name (trimmed url ∷ []) m)
          (assign-IsAscending name (trimmed url ∷ []) m h))

  -- A camera that is missing after the settings are loaded was missing before.
  missing_before :
      (k : Text) (es : List (Text × Text)) (m : Cameras)
      → lookup k (load_entries trimmed es m) ≡ none
      → lookup k m ≡ none
  unfolding load_entries
  missing_before k [] m = λ h. h
  missing_before k ((name, url) ∷ es) m =
      let urls = trimmed url ∷ [] in
      if_keeps (λ (m' : Cameras). lookup k m' ≡ none → lookup k m ≡ none)
        (leb (length (trimmed url)) 0) (load_entries trimmed es m)
        (load_entries trimmed es (assign name urls m)) (missing_before k es m)
        (λ h.
          ground (arith, missing_before k es (assign name urls m) h, lookup-assign name k urls m))

  loaded-StepAgrees :
      (tag : Text) (es : List (Text × Text)) (m : Cameras) (a : Aggregator)
      → Agrees tag m a
      → StepAgrees tag a (load_from_settings trimmed es m)
  unfolding load_from_settings get_stream_urls
  loaded-StepAgrees tag es m a h =
      let m' = load_entries trimmed es m in
      let up = load-IsAscending es m h.ascending in
      record {
        kept = deliver-IsOnly tag (discover_all m') a h.kept;
        ascending = up;
        agrees = λ k.
            deliver-discover_all tag k m' a up
            ∙ ap (over (lookup k m')) (h.agrees k)
            ∙ over_same (lookup k m') (lookup k m) (missing_before k es m);
      }

  step-Agrees :
      (o : SourceOp) (tag : Text) (m : Cameras) (a : Aggregator)
      → Agrees tag m a
      → StepAgrees tag a (apply_source o m)
  unfolding apply_source on_variable_update add_camera remove_camera clear discover_all
  step-Agrees (variable_updated key value) tag m a h =
      if_keeps (StepAgrees tag a) (not (starts_with publisher_prefix key)) _ _
        (still-Agrees tag m a h)
        (if_keeps (StepAgrees tag a) (not (ends_with streams_suffix key)) _ _
          (still-Agrees tag m a h)
          (named-StepAgrees tag (before_slash (drop (length publisher_prefix) key))
            (parse_stream_urls trimmed is_mjpg value) m a h))
  step-Agrees (camera_added name url) tag m a h =
      if_keeps (StepAgrees tag a) (leb (length name) 0 || leb (length url) 0) _ _
        (still-Agrees tag m a h)
        (if_keeps (StepAgrees tag a) (urls_eq (get_stream_urls name m) (url ∷ [])) _ _
          (still-Agrees tag m a h) (assign-StepAgrees tag name (url ∷ []) m a h))
  step-Agrees (camera_dropped name) tag m a h = found-StepAgrees tag name (lookup name m) m a h
  step-Agrees source_cleared tag m a h = cleared-StepAgrees tag m [] a h (unfold IsAscending in tt)
  step-Agrees (settings_loaded settings) tag m a h = loaded-StepAgrees tag settings m a h

  -- Whatever the operations of the aggregator's only source are, and in whatever order, the loading
  -- of settings included, the aggregator has, under the source's tag, the URLs that the source has
  -- for every camera, provided it has them at first.
  pub run_source-Agrees :
      (tag : Text) (os : List SourceOp) (m : Cameras) (a : Aggregator)
      → Agrees tag m a
      → let (m', a') = run_source tag os (m, a) in Agrees tag m' a'
  unfolding run_source
  run_source-Agrees tag [] m a h = h
  run_source-Agrees tag (o ∷ os) m a h =
      run_source-Agrees tag os (apply_source o m).0 _ (step-Agrees o tag m a h)
