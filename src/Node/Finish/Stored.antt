-- ===== src/Node/Finish/Stored.antt =====
-- node.rs: a received file never replaces one that is there, and one is reported only if it is complete
-- and passed the screening.
use agora_protocol.Base.{
  ℕ, ◌≡◌, refl, ap, ◌∙◌, Bool, true, false, not, inl, inr, List, [], ◌∷◌, ◌++◌, Option, none, some,
  Bool-cases, Text, Bytes, text_eq, text_eq_sound, if◌then◌else◌,
}
use agora_protocol.Base.Dict.{Dict, lookup, insert, contains_key, lookup-insert_ne, lookup-remove}
use agora_protocol.Base.Result.{Result, ok, err}
use agora_protocol.Config.Types.{Config}
use agora_protocol.Files.Kinds.{Kind, text, data_file, container, executable, unknown}
use agora_protocol.Files.Names.{safe_name}
use agora_protocol.Files.Screen.{Machine, Run, ScreenError, screen}
use agora_protocol.Node.Types.{FileMeta, Incoming, State}
use agora_protocol.Node.Queues.{Delivery, DeliverError}
use agora_protocol.Node.Transfers.{is_complete}
use agora_protocol.Node.Finish.{
  Disk, FinishError, disk_error, not_text, refused, damaged, Finished, reserved_name, reported,
  store_file, text_content, after_screen, file_finish,
}
use agora_protocol.Node.Finish.Names.{reserved_name-free}

-- What the end of a file leaves in the folder: every file that was there, and if the answer is good, a
-- new one with the content `c` under a free name, and nothing else.
pub record Outcome (name : Text) (d : Dict Bytes) (c : Bytes) (f : Finished) : Type 0 where
  pub kept : (j : Text) (b : Bytes) → lookup j d ≡ some b → lookup j f.stored ≡ some b
  pub placed :
      (r : Delivery)
      → f.answer ≡ ok r
      → (contains_key (reserved_name name d) d ≡ false)
        × (f.stored ≡ insert (reserved_name name d) c d)

failed-Outcome :
    (name : Text) (d : Dict Bytes) (c : Bytes) (e : FinishError) (s : State)
    → Outcome name d c (record { answer = err e; stored = d; state = s })
failed-Outcome name d c e s = record { kept = λ j b h. h; placed = λ r h. absurd (cc (h)) }

-- A name that a file has is not a free one.
taken-ne :
    (name j : Text) (d : Dict Bytes) (b : Bytes)
    → contains_key name d ≡ false
    → lookup j d ≡ some b
    → text_eq name j ≡ false
unfolding contains_key
taken-ne name j d b free h = elim (Bool-cases (text_eq name j)) [
  | inr e ↦ e
  | inl e ↦ absurd (cc (free, text_eq_sound name j e, h))
]

kept-insert :
    (name : Text) (c : Bytes) (d : Dict Bytes) (j : Text) (b : Bytes)
    → contains_key name d ≡ false
    → lookup j d ≡ some b
    → lookup j (insert name c d) ≡ some b
kept-insert name c d j b free h = lookup-insert_ne name j c d (taken-ne name j d b free h) ∙ h

either-Outcome :
    (b : Bool) (name : Text) (d : Dict Bytes) (c : Bytes) (f g : Finished)
    → Outcome name d c f
    → Outcome name d c g
    → Outcome name d c (if b then f else g)
either-Outcome true name d c f g p q = p
either-Outcome false name d c f g p q = q

-- The content that a file of a kind is stored with: a text in which the guard finds something is stored
-- redacted, and everything else as it came.
abbrev pub redacted_text : (Text → Bytes) → Bytes → Text × List Text → Bytes
redacted_text utf8 bytes (t, []) = bytes
redacted_text utf8 bytes (t, h ∷ hs) = utf8 t

abbrev pub content_of :
    (Bytes → Option Text) → (Text → Bytes) → (Text → Text × List Text) → Kind → Bytes → Bytes
content_of decode utf8 clean text bytes = elim (decode bytes) [
  | none ↦ bytes
  | some t ↦ redacted_text utf8 bytes (clean t)
]
content_of decode utf8 clean _ bytes = bytes

abbrev pub screened_content :
    (Bytes → Option Text)
    → (Text → Bytes)
    → (Text → Text × List Text)
    → Result ScreenError (Kind × Option Text)
    → Bytes
    → Bytes
screened_content decode utf8 clean (ok (k, sc)) bytes = content_of decode utf8 clean k bytes
screened_content decode utf8 clean (err e) bytes = []

module _ (hash : Bytes → Text) (machine : Machine) (file_stem : Text → Text)
    (run : Text → List Text → Run) (decode : Bytes → Option Text) (utf8 : Text → Bytes)
    (clean : Text → Text × List Text) (cfg : Config) (disk : Disk) (starts : Bool) (now : ℕ)
    (folder peer : Text) (s : State) where
  reported-Outcome :
      (name from : Text) (content : Bytes) (d : Dict Bytes)
      (r : Result DeliverError Delivery × State)
      → Outcome name d content (
          reported hash machine file_stem run decode utf8 clean cfg now from
            (insert (reserved_name name d) content d)
            r)
  unfolding reported
  reported-Outcome name from content d (ok r, t) = record {
    kept = λ j b h. kept-insert _ content d j b (reserved_name-free name d) h;
    placed = λ x h. (reserved_name-free name d, refl);
  }
  reported-Outcome name from content d (err e, t) = record {
    kept = λ j b h. kept-insert _ content d j b (reserved_name-free name d) h;
    placed = λ x h. absurd (cc (h));
  }

  store_file-Outcome :
      (meta : FileMeta) (content : Bytes) (kind : Kind) (scanner : Option Text)
      (redacted : List Text) (d : Dict Bytes)
      → Outcome (safe_name meta.name) d content (
          store_file hash machine file_stem run decode utf8 clean cfg disk starts now folder peer
            meta content kind scanner redacted d s)
  unfolding store_file
  store_file-Outcome meta content kind scanner redacted d =
      either-Outcome (not disk.folder) name d content _ _
        (failed-Outcome name d content disk_error s)
        (either-Outcome (not disk.opened) name d content _ _
          (failed-Outcome name d content disk_error s)
          (either-Outcome (not disk.moved) name d content _ _
            (record {
              kept = λ j b h.
                  lookup-remove _ j (insert (reserved_name name d) [] d)
                  ∙ rw (taken-ne _ j d b (reserved_name-free name d) h)
                      (kept-insert _ [] d j b (reserved_name-free name d) h);
              placed = λ r h. absurd (cc (h));
            })
            (either-Outcome (not disk.marked) name d content _ _
              (record {
                kept = λ j b h. kept-insert _ content d j b (reserved_name-free name d) h;
                placed = λ r h. absurd (cc (h));
              })
              (reported-Outcome name (meta.from ++ b'@' ∷ peer) content d _))))
    where
      name : Text
      name = safe_name meta.name

  text_content-Outcome :
      (meta : FileMeta) (bytes : Bytes) (scanner : Option Text) (o : Option Text) (d : Dict Bytes)
      → decode bytes ≡ o
      → Outcome (safe_name meta.name) d (content_of decode utf8 clean text bytes) (
          text_content hash machine file_stem run decode utf8 clean cfg disk starts now folder peer
            meta bytes scanner o d s)
  unfolding text_content
  text_content-Outcome meta bytes scanner none d e =
      failed-Outcome (safe_name meta.name) d _ not_text s
  text_content-Outcome meta bytes scanner (some t) d e = rw (content_of, e) (found (clean t) refl)
    where
      found :
          (r : Text × List Text)
          → clean t ≡ r
          → Outcome (safe_name meta.name) d (redacted_text utf8 bytes r) (
              text_content hash machine file_stem run decode utf8 clean cfg disk starts now folder
                peer meta bytes scanner
                (some t)
                d
                s)
      found (u, []) f = rw (text_content, f) (store_file-Outcome meta bytes text scanner [] d)
      found (u, h ∷ hs) f =
          rw (text_content, f)
            (either-Outcome (not disk.writable) (safe_name meta.name) d (utf8 u) _ _
              (failed-Outcome (safe_name meta.name) d (utf8 u) disk_error s)
              (store_file-Outcome meta (utf8 u) text scanner (h ∷ hs) d))

  after_screen-Outcome :
      (meta : FileMeta) (bytes : Bytes) (r : Result ScreenError (Kind × Option Text))
      (d : Dict Bytes)
      → Outcome (safe_name meta.name) d (screened_content decode utf8 clean r bytes) (
          after_screen hash machine file_stem run decode utf8 clean cfg disk starts now folder peer
            meta bytes r d s)
  unfolding after_screen
  after_screen-Outcome meta bytes (err e) d =
      failed-Outcome (safe_name meta.name) d [] (refused e) s
  after_screen-Outcome meta bytes (ok (text, sc)) d =
      text_content-Outcome meta bytes sc (decode bytes) d refl
  after_screen-Outcome meta bytes (ok (data_file, sc)) d =
      store_file-Outcome meta bytes data_file sc [] d
  after_screen-Outcome meta bytes (ok (container, sc)) d =
      store_file-Outcome meta bytes container sc [] d
  after_screen-Outcome meta bytes (ok (executable, sc)) d =
      store_file-Outcome meta bytes executable sc [] d
  after_screen-Outcome meta bytes (ok (unknown, sc)) d =
      store_file-Outcome meta bytes unknown sc [] d

  screened_well :
      (meta : FileMeta) (bytes : Bytes) (x : Result ScreenError (Kind × Option Text))
      (d : Dict Bytes) (r : Delivery)
      → (after_screen hash machine file_stem run decode utf8 clean cfg disk starts now folder peer
          meta bytes x d s).answer
        ≡ ok r
      → (k : Kind × Option Text) × (x ≡ ok k)
  unfolding after_screen
  screened_well meta bytes (err e) d r h = absurd (cc (h))
  screened_well meta bytes (ok k) d r h = (k, refl)

  -- Whatever a peer announces and sends, and whatever the disk, the scanner and the agents do: a file
  -- that is in the folder stays there with its content. If the answer is good, the new file was
  -- complete, with the announced size and hash, it passed the screening, and the folder has one file
  -- more, under a name that no file had, whose content is what came, or the text that the guard leaves
  -- of it if it is a text in which the guard finds something.
  pub file_finish-stored :
      (i : Incoming) (d : Dict Bytes)
      → let f =
          file_finish hash machine file_stem run decode utf8 clean cfg disk starts now folder peer i
            d s in
        let name = reserved_name (safe_name i.meta.name) d in
        ((j : Text) (b : Bytes) → lookup j d ≡ some b → lookup j f.stored ≡ some b)
        × ((r : Delivery)
            → f.answer ≡ ok r
            → (is_complete hash i ≡ true)
              × ((k : Kind × Option Text) × (screen machine file_stem run i.path i.written cfg.files
                    ≡ ok k)
                  × (contains_key name d ≡ false)
                  × (f.stored ≡ insert name (content_of decode utf8 clean k.0 i.written) d)))
  unfolding file_finish after_screen store_file
  file_finish-stored i d =
      let x = screen machine file_stem run i.path i.written cfg.files in
      let c = screened_content decode utf8 clean x i.written in
      let name = safe_name i.meta.name in
      let f =
        file_finish hash machine file_stem run decode utf8 clean cfg disk starts now folder peer i d
          s in
      let o : Outcome name d c f =
        either-Outcome (not (is_complete hash i)) name d c _ _ (failed-Outcome name d c damaged s) (
          either-Outcome (not disk.readable) name d c _ _ (failed-Outcome name d c disk_error s)
            (after_screen-Outcome i.meta i.written _ d)) in
      (
        o.kept,
        λ r h. elim (Bool-cases (is_complete hash i)) [
          | inr e ↦ absurd (cc (rw e at h))
          | inl e ↦ elim (Bool-cases disk.readable) [
            | inr g ↦ absurd (cc (rw g at (rw e at h)))
            | inl g ↦
                let (k, m) = screened_well i.meta i.written _ d r (rw g at (rw e at h)) in
                let (free, placed) = o.placed r h in
                (
                  e,
                  (
                    k,
                    m,
                    free,
                    placed
                        ∙ ap
                            (λ y.
                              insert (reserved_name name d)
                                (screened_content decode utf8 clean y i.written) d)
                            m,
                  ),
                )
          ]
        ],
      )
