-- ===== src/Cache/Saved.antt =====
-- What is loaded is what was saved.
use lspgraph.Base.{
  none, some, ◌≡◌, ◌≢◌, refl, Text-discrete, Bytes, take, if_pos, if_neg, ◌∙◌, ◌==◌, if◌then◌else◌,
}
use lspgraph.Base.Map.{get, insert, get-insert}
use lspgraph.Engine.{FilePath}
use lspgraph.Cache.{
  SaveEnd, written, refused, cut_off, Crates, CacheFile, Disk, schema_version, cache_path, load,
  save, read_file,
}

module _ (crates : Crates) (disk : Disk) (repo : FilePath) (cache : CacheFile) where
  -- On a disk that can be written, and where the JSON of a cache reads back as the cache, a cache of
  -- the present schema is loaded as it was saved, and a cache of another schema is not loaded.
  pub load-save :
      disk.write_end ≡ written
      → crates.from_slice (crates.to_vec cache) ≡ some cache
      → load crates (save crates disk repo cache).0 repo
        ≡ (if cache.schema == schema_version then some cache else none)
  unfolding load save read_file
  load-save can_write codec =
      let path = cache_path crates repo in
      let written = get-insert Text-discrete path path (crates.to_vec cache) disk.files in
      rw (can_write, save, load, written ∙ if_pos (Text-discrete path path) refl _ _, load, codec)
        refl

  -- Saving a cache changes nothing for a repository whose cache has another path.
  pub load-save_other :
      (other : FilePath)
      → cache_path crates repo ≢ cache_path crates other
      → load crates (save crates disk repo cache).0 other ≡ load crates disk other
  unfolding load save read_file
  load-save_other other apart = by_end disk.write_end refl
    where
      kept :
          (bytes : Bytes)
          → get Text-discrete
              (cache_path crates other)
              (insert Text-discrete (cache_path crates repo) bytes disk.files)
            ≡ get Text-discrete (cache_path crates other) disk.files
      kept bytes =
          let path = cache_path crates repo in
          let elsewhere = cache_path crates other in
          get-insert Text-discrete path elsewhere bytes disk.files
          ∙ if_neg (Text-discrete path elsewhere) apart _ _

      by_end :
          (w : SaveEnd)
          → disk.write_end ≡ w
          → load crates (save crates disk repo cache).0 other ≡ load crates disk other
      by_end written e = rw (e, save, load, kept (crates.to_vec cache), load) refl
      by_end (refused why) e = rw (e, save) refl
      by_end (cut_off n why) e = rw (e, save, load, kept (take n (crates.to_vec cache)), load) refl
