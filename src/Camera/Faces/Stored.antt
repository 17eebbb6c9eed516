-- ===== src/Camera/Faces/Stored.antt =====
-- What an update of the faces leaves in the table and in the folder.
use ipc_with_cht.Prelude.{
  suc, ◌≡◌, refl, ap, ◌||◌, sym, subst, Bool, true, false, Option, none, some, List, [], ◌∷◌, ◌++◌,
  arith, inl, inr, Bool-cases, if-both, length, is_empty, if◌then◌else◌, ◌==◌,
}
use ipc_with_cht.Prelude.Bytes.{Bytes, same_text, same_text_iff, same_text_refl, same_text_ne}
use ipc_with_cht.Prelude.Text.{codes}
use ipc_with_cht.Prelude.Integers.{ℤ, pos, negsuc, print_int, digits}
use ipc_with_cht.Prelude.Integers.Roundtrip.{AllDigits, AllDigits-digits}
use ipc_with_cht.Camera.Json.{Json, text, int, object, array, other, Elements, end_of, element}
use ipc_with_cht.Camera.Base64.{decode_base64}
use ipc_with_cht.Camera.Store.{IdentificationFeature, Store}
use ipc_with_cht.Camera.Features.{with_features}
use ipc_with_cht.Camera.Features.FileNames.{sanitize, file_name, has_slash, starts_with_dot, Safe}
use ipc_with_cht.Camera.Features.FileNames.Safety.{sanitize-Safe}
use ipc_with_cht.Camera.Faces.{
  read_feature, face_size, sanitized, File, feature_file, put_file, Writing, not_opened, written,
  cut_short, is_written, write_file, Batch, take_decoded, take_feature, take_element, take_elements,
  Outcome, install, nothing_taken, failed, features_array, update_features,
}

has_slash-append :
    (s t : Bytes) → has_slash s ≡ false → has_slash t ≡ false → has_slash (s ++ t) ≡ false
unfolding has_slash
has_slash-append [] t h g = g
has_slash-append (c ∷ s) t h g = ground (arith, h, has_slash-append s t)

has_slash-AllDigits : (s : Bytes) → AllDigits s → has_slash s ≡ false
unfolding has_slash
has_slash-AllDigits [] a = refl
has_slash-AllDigits (c ∷ s) (d, a) = ground (arith, d, has_slash-AllDigits s a)

has_slash-print_int : (i : ℤ) → has_slash (print_int i) ≡ false
unfolding print_int has_slash
has_slash-print_int (pos n) = has_slash-AllDigits (digits 11 n) (AllDigits-digits 11 n)
has_slash-print_int (negsuc n) =
    has_slash-AllDigits (digits 11 (suc n)) (AllDigits-digits 11 (suc n))

-- A name of one file: not empty, no slash, and no dot at the start.
unfoldable pub StaysInside : Bytes → Type 0
StaysInside s = (has_slash s ≡ false) × ((is_empty s ≡ false) × (starts_with_dot s ≡ false))

StaysInside-append : (s t : Bytes) → StaysInside s → has_slash t ≡ false → StaysInside (s ++ t)
unfolding StaysInside
StaysInside-append [] t (h, (n, d)) g = absurd (ground arith)
StaysInside-append (c ∷ s) t (h, (n, d)) g = (has_slash-append (c ∷ s) t h g, (n, d))

Safe-StaysInside : (s : Bytes) → Safe s → StaysInside s
unfolding Safe StaysInside
Safe-StaysInside s (h, (dd, (d, (e, n)))) = (h, (n, d))

file_name-StaysInside :
    (i name : Bytes) (level : ℤ) → Safe i → Safe name → StaysInside (file_name i name level)
unfolding file_name has_slash Safe
file_name-StaysInside i name level a b =
    let s1 = StaysInside-append i (codes "_") (Safe-StaysInside i a) refl in
    let s2 = StaysInside-append (i ++ codes "_") name s1 b.0 in
    let s3 = StaysInside-append (i ++ codes "_" ++ name) (codes "_") s2 refl in
    let s4 =
      StaysInside-append (i ++ codes "_" ++ name ++ codes "_") (print_int level) s3
        (has_slash-print_int level) in
    StaysInside-append (i ++ codes "_" ++ name ++ codes "_" ++ print_int level) (codes ".fea") s4
      refl

sanitized-StaysInside :
    (f : IdentificationFeature) (bs : Bytes)
    → StaysInside (File.name (feature_file (sanitized f) bs))
unfolding sanitized
sanitized-StaysInside f bs =
    file_name-StaysInside (sanitize (IdentificationFeature.id f))
      (sanitize (IdentificationFeature.name f)) (IdentificationFeature.verify_level f)
      (sanitize-Safe (IdentificationFeature.id f)) (sanitize-Safe (IdentificationFeature.name f))

-- Every file of the list stays inside the folder.
abbrev pub AllInside : List File → Type 0
AllInside [] = Unit
AllInside (f ∷ fs) = StaysInside (File.name f) × AllInside fs

AllInside-put_file :
    (f : File) (fs : List File)
    → StaysInside (File.name f)
    → AllInside fs
    → AllInside (put_file f fs)
unfolding put_file
AllInside-put_file f [] h a = (h, tt)
AllInside-put_file f (g ∷ gs) h (i, a) =
    if-both AllInside (same_text (File.name g) (File.name f)) (f ∷ gs) (g ∷ put_file f gs) (h, a)
      (i, AllInside-put_file f gs h a)

unfoldable pub has_file : Bytes → List File → Bool
has_file n [] = false
has_file n (f ∷ fs) = same_text (File.name f) n || has_file n fs

has_file-put_file :
    (n : Bytes) (f : File) (fs : List File)
    → has_file n (put_file f fs) ≡ same_text (File.name f) n || has_file n fs
unfolding has_file put_file
has_file-put_file n f [] = refl
has_file-put_file n f (g ∷ gs) = elim (Bool-cases (same_text (File.name g) (File.name f))) [
  | inl e ↦
      let same = (same_text_iff (File.name g) (File.name f)).0 e in
      let at_n = ap (λ k. same_text k n) same in ground (arith, e, at_n)
  | inr e ↦ ground (arith, e, has_file-put_file n f gs)
]

-- No two files of the list share a name.
abbrev pub NamedOnce : List File → Type 0
NamedOnce [] = Unit
NamedOnce (f ∷ fs) = (has_file (File.name f) fs ≡ false) × NamedOnce fs

NamedOnce-put_file : (f : File) (fs : List File) → NamedOnce fs → NamedOnce (put_file f fs)
unfolding put_file has_file
NamedOnce-put_file f [] o = (refl, tt)
NamedOnce-put_file f (g ∷ gs) (h, o) = elim (Bool-cases (same_text (File.name g) (File.name f))) [
  | inl e ↦
      let same = (same_text_iff (File.name g) (File.name f)).0 e in
      subst (λ t. NamedOnce (if t then f ∷ gs else g ∷ put_file f gs)) (sym e)
        (subst (λ k. has_file k gs ≡ false) same h, o)
  | inr e ↦
      let flip = same_text_iff (File.name g) (File.name f) in
      let other =
        same_text_ne (File.name f) (File.name g)
          (λ q. let q' = flip.1 (sym q) in ground (arith, e, q')) in
      subst (λ t. NamedOnce (if t then f ∷ gs else g ∷ put_file f gs)) (sym e)
        (ground (arith, other, h, has_file-put_file (File.name g) f gs), NamedOnce-put_file f gs o)
]

-- The feature is one of 2048 bytes, and there is a file of the name that is made for it.
abbrev pub Backed : List File → IdentificationFeature → Type 0
Backed files f =
    (bs : Bytes) × ((decode_base64 (IdentificationFeature.face_features f) ≡ some bs)
      × ((length bs ≡ face_size) × (has_file (File.name (feature_file f bs)) files ≡ true)))

abbrev pub AllBacked : List File → List IdentificationFeature → Type 0
AllBacked files [] = Unit
AllBacked files (f ∷ fs) = Backed files f × AllBacked files fs

AllBacked-put_file :
    (g : File) (files : List File) (fs : List IdentificationFeature)
    → AllBacked files fs
    → AllBacked (put_file g files) fs
AllBacked-put_file g files [] a = tt
AllBacked-put_file g files (f ∷ fs) ((bs, (d, (n, m))), a) =
    let there = has_file-put_file (File.name (feature_file f bs)) g files in
    ((bs, (d, (n, ground (arith, m, there)))), AllBacked-put_file g files fs a)

AllBacked-append :
    (files : List File) (fs : List IdentificationFeature) (f : IdentificationFeature)
    → AllBacked files fs
    → Backed files f
    → AllBacked files (fs ++ f ∷ [])
AllBacked-append files [] f a b = (b, tt)
AllBacked-append files (g ∷ fs) f (h, a) b = (h, AllBacked-append files fs f a b)

-- What holds of a batch at every step.
abbrev pub Sound : List IdentificationFeature → List File → Type 0
Sound fs files = AllInside files × NamedOnce files × AllBacked files fs

Sound-put_file :
    (fs : List IdentificationFeature) (f : File) (files : List File)
    → StaysInside (File.name f)
    → Sound fs files
    → Sound fs (put_file f files)
Sound-put_file fs f files h (i, o, b) =
    (AllInside-put_file f files h i, NamedOnce-put_file f files o, AllBacked-put_file f files fs b)

Sound-write_file :
    (fs : List IdentificationFeature) (w : Writing) (f : File) (files : List File)
    → StaysInside (File.name f)
    → Sound fs files
    → Sound fs (write_file w f files)
unfolding write_file
Sound-write_file fs not_opened f files h b = b
Sound-write_file fs written f files h b = Sound-put_file fs f files h b
Sound-write_file fs (cut_short left) f files h b =
    Sound-put_file fs (record { name = File.name f; contents = left }) files h b

-- A feature of 2048 bytes that is taken if its file is written.
Sound-taken :
    (fs : List IdentificationFeature) (w : Writing) (f : IdentificationFeature) (bs : Bytes)
    (files : List File)
    → decode_base64 (IdentificationFeature.face_features f) ≡ some bs
    → length bs ≡ face_size
    → StaysInside (File.name (feature_file f bs))
    → Sound fs files
    → Sound (if is_written w then fs ++ f ∷ [] else fs) (write_file w (feature_file f bs) files)
unfolding write_file
Sound-taken fs not_opened f bs files d n h b = b
Sound-taken fs (cut_short left) f bs files d n h b =
    Sound-write_file fs (cut_short left) (feature_file f bs) files h b
Sound-taken fs written f bs files d n h b =
    let file = feature_file f bs in
    let (i, o, a) = Sound-put_file fs file files h b in
    let there = has_file-put_file (File.name file) file files in
    let itself = same_text_refl (File.name file) in
    (
      i,
      o,
      AllBacked-append (put_file file files) fs f a (bs, (d, (n, ground (arith, there, itself)))),
    )

abbrev IsSound : Batch → Type 0
IsSound b = Sound (Batch.taken b) (Batch.files b)

module _ (disk : Bytes → Writing) where
  take_decoded-Sound :
      (f : IdentificationFeature) (o : Option Bytes) (b : Batch)
      → decode_base64 (IdentificationFeature.face_features f) ≡ o
      → IsSound b
      → IsSound (take_decoded disk (sanitized f) o b)
  unfolding take_decoded sanitized
  take_decoded-Sound f none b h v =
      let file = feature_file (sanitized f) [] in
      Sound-write_file (Batch.taken b) (disk (File.name file)) file (Batch.files b)
        (sanitized-StaysInside f []) v
  take_decoded-Sound f (some bs) b h v =
      let file = feature_file (sanitized f) bs in
      let w = disk (File.name file) in
      let fs = Batch.taken b in
      let kept : Batch = record {
        taken = if is_written w then fs ++ sanitized f ∷ [] else fs;
        files = write_file w file (Batch.files b);
      } in
      elim (Bool-cases (length bs == face_size)) [
        | inl n ↦
            subst (λ t. IsSound (if t then kept else b)) (sym n)
              (Sound-taken fs w (sanitized f) bs (Batch.files b) h (ground arith)
                (sanitized-StaysInside f bs) v)
        | inr n ↦ subst (λ t. IsSound (if t then kept else b)) (sym n) v
      ]

  take_element-Sound : (v : Json) (b : Batch) → IsSound b → IsSound (take_element disk v b)
  unfolding take_element take_feature
  take_element-Sound (object m) b h =
      elim (read_feature m)
        as (λ o.
          let r : Batch = elim o [ none ↦ b | some f ↦ take_feature disk f b ] in IsSound r) [
            | none ↦ h
            | some f ↦
                take_decoded-Sound f (decode_base64 (IdentificationFeature.face_features f)) b refl
                  h
          ]
  take_element-Sound (text t) b h = h
  take_element-Sound (int i) b h = h
  take_element-Sound (array es) b h = h
  take_element-Sound other b h = h

  take_elements-Sound : (es : Elements) (b : Batch) → IsSound b → IsSound (take_elements disk es b)
  unfolding take_elements
  take_elements-Sound end_of b h = h
  take_elements-Sound (element v es) b h =
      take_elements-Sound es (take_element disk v b) (take_element-Sound v b h)

-- What is said of an outcome: where the folder is replaced, each of its files stays inside it, no two
-- share a name, and for each feature of the table, which decodes to 2048 bytes, there is one.
abbrev pub Holds : Outcome → Type 0
Holds o = elim (Outcome.folder o) [
  | none ↦ Unit
  | some files ↦ Sound (Store.features (Outcome.store o)) files
]

install-Holds : (b : Batch) (st : Store) → IsSound b → Holds (install b st)
unfolding install
install-Holds b st h =
    if-both Holds (is_empty (Batch.taken b)) (nothing_taken st)
      record { ok = true; store = with_features (Batch.taken b) st; folder = some (Batch.files b) }
      tt h

-- Whatever the parser makes of the text, whatever the features are called, and whatever becomes of
-- the files: where the update replaces the folder of the faces, every file of the new folder has a
-- name without a slash, not empty and not starting with a dot, no two files share a name, and every
-- feature of the new table decodes to 2048 bytes and has a file that is named after it. (A later
-- element that is given the same name overwrites that file.)
pub update_features-Holds :
    (parse : Bytes → Option Json) (disk : Bytes → Writing) (s : Bytes) (st : Store)
    → Holds (update_features parse disk s st)
unfolding update_features
update_features-Holds parse disk s st =
    elim (features_array (parse s))
      as (λ o.
        let r : Outcome = elim o [
          | none ↦ failed st
          | some es ↦ install (take_elements disk es (record { taken = []; files = [] })) st
        ] in
        Holds r) [
          | none ↦ tt
          | some es ↦
              install-Holds (take_elements disk es (record { taken = []; files = [] })) st
                (take_elements-Sound disk es (record { taken = []; files = [] }) (tt, tt, tt))
        ]
