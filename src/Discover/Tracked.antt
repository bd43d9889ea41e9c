-- ===== src/Discover/Tracked.antt =====
-- crates/tryke_discovery/src/filesystem/discoverer.rs: the invariants of a `Discoverer`.
use tryke.Prelude.{◌≡◌, false, none, some, contains, list_eq}
use tryke.Prelude.Dict.{get}
use tryke.Paths.{component_eq}
use tryke.Paths.Operations.{PathBuf}
use tryke.Graph.Mirror.{IsMirror, has_edge}
use tryke.Discover.Files.{DiscoveredFile, FileKey, Disk, from_path}
use tryke.Discover.Cache.{get_cached}
use tryke.Discover.State.{Analysis, Discoverer}
use tryke.Discover.Rediscover.{is_dynamic}
use tryke.Discover.Phases.{AreOwn}
use tryke.Discover.Found.{IsCurrent}

-- The inputs are the state's own, the two indexes of the graph agree, a file without a result
-- imports nothing, and the files that are always dirty are those whose results say so.
pub record IsTracked (d : Discoverer) : Type 0 where
  pub own : AreOwn d
  pub mirror : IsMirror d.import_graph
  pub edges : (a b : PathBuf) → get a d.results ≡ none → has_edge d.import_graph.forward a b ≡ false
  pub dirty : (a : PathBuf) → contains d.import_graph.always_dirty a ≡ is_dynamic (get a d.results)

-- What the cache holds under the present time and size of a file is the analysis of a text with the
-- statements that the file has now.
abbrev pub IsSound : Analysis → Disk → Discoverer → Type 0
IsSound analysis disk d =
    (p : PathBuf) (key : FileKey) (r : DiscoveredFile)
    → from_path disk p ≡ some key
    → get_cached d.cache p key ≡ some r
    → IsCurrent analysis disk d p r
