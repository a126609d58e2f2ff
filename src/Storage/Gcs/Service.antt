-- ===== src/Storage/Gcs/Service.antt =====
-- What Google Cloud Storage documents of the calls of packages/storage/src/gcs.ts on one object
-- that is never deleted: each content has a generation of its own, and a save can be made to depend
-- on the generation.
use osqueue.Base.{ℕ, ◌<◌, ◌≡◌, String, List, [], ◌∷◌, ◌++◌, some, get_elem?, Extends}
use osqueue.Storage.Gcs.{returned, Bucket}

module _ {Bytes : Type 0} where
  -- A state of the service as the generations and contents of the object, oldest first.
  pub record GenerationView (C : Bucket Bytes) : Type 1 where
    pub IsValid : C.State → Type 0
    pub contents : C.State → List (ℕ × Bytes)

  pub record KeepsGenerations (C : Bucket Bytes) (file : String) (V : GenerationView C)
      : Type 0 where
    pub one_place :
        (s : C.State) (i j g : ℕ) (x y : Bytes)
        → V.IsValid s
        → get_elem? (V.contents s) i ≡ some (g, x)
        → get_elem? (V.contents s) j ≡ some (g, y)
        → i ≡ j
    pub download-IsValid : (s : C.State) → V.IsValid s → V.IsValid (C.download file s).1
    pub metadata-IsValid : (s : C.State) → V.IsValid s → V.IsValid (C.get_metadata file s).1
    pub save-IsValid :
        (s : C.State) (x : Bytes) (g : ℕ) → V.IsValid s → V.IsValid (C.save file x (some g) s).1
    -- Contents are added by this client and by others, and none is taken back.
    pub metadata_extends :
        (s : C.State) → V.IsValid s → Extends (V.contents s) (V.contents (C.get_metadata file s).1)
    -- A download returns the last content, and the metadata are those of the last content.
    pub download-returned :
        (s : C.State) (x : Bytes)
        → V.IsValid s
        → (C.download file s).0 ≡ returned x
        → (earlier : List (ℕ × Bytes)) × (g : ℕ) × (V.contents (C.download file s).1
            ≡ earlier ++ (g, x) ∷ [])
    pub metadata-returned :
        (s : C.State) (g : ℕ)
        → V.IsValid s
        → (C.get_metadata file s).0 ≡ returned g
        → (earlier : List (ℕ × Bytes)) × (x : Bytes) × (0 < g)
          × (V.contents (C.get_metadata file s).1 ≡ earlier ++ (g, x) ∷ [])
    -- A save goes through only onto the content with the generation that it is given; 0, which is
    -- no content's, would ask for no object.
    pub save-returned :
        (s : C.State) (bytes : Bytes) (g : ℕ)
        → V.IsValid s
        → 0 < g
        → (C.save file bytes (some g) s).0 ≡ returned tt
        → (earlier : List (ℕ × Bytes)) × (base : Bytes) × (g' : ℕ) × Extends
            (V.contents s)
            (earlier ++ (g, base) ∷ [])
          × (V.contents (C.save file bytes (some g) s).1
              ≡ (earlier ++ (g, base) ∷ []) ++ (g', bytes) ∷ [])
