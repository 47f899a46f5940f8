-- ===== src/Files/Made.antt =====
-- The effects of the operations on a disk where nothing stands in their way.
use reliable_broadcast.Prelude.{
  ◌≡◌, refl, sym, ap, ◌∙◌, Bool, true, false, not, ◌||◌, ◌&&◌, none, some, List, [], ◌∷◌, ◌++◌,
  contains, contains-append, arith, nat_eq, list_eq, list_beq_iff, ◌==◌, if◌then◌else◌, if_true,
  if_false, Bool-cases, inl, inr, is_some,
}
use reliable_broadcast.Result.{ok, ◌>>=◌}
use reliable_broadcast.Dict.{Dict, lookup, insert, remove, lookup-insert}
use reliable_broadcast.Files.{
  FilePath, Disk, parent, exists, with_directory, makedirs, create_dir, remove_old, write,
  or_printed,
}

-- The path is one of the directories on the way.
unfoldable pub on_way : FilePath → FilePath → FilePath → Bool
on_way done [] path = false
on_way done (part ∷ rest) path = done ++ part ∷ [] == path || on_way (done ++ part ∷ []) rest path

contains-with_directory :
    (path q : FilePath) (directories : List FilePath)
    → contains (with_directory path directories) q ≡ (contains directories q || path == q)
unfolding with_directory contains
contains-with_directory path q directories = ground (
  arith,
  contains-append directories (path ∷ []) q,
  list_beq_iff path q,
  ap (contains directories),
)

module _ {Entry : Type 0} where
  -- No file is on the way.
  unfoldable pub is_free : FilePath → FilePath → Dict FilePath Entry → Bool
  is_free done [] entries = true
  is_free done (part ∷ rest) entries =
      not (is_some (lookup (done ++ part ∷ []) entries)) && is_free (done ++ part ∷ []) rest entries

  makedirs_lem :
      (done rest : FilePath) (disk : Disk Entry)
      → is_free done rest disk.entries ≡ true
      → (disk' : Disk Entry) × (makedirs done rest disk ≡ ok disk')
        × (disk'.entries ≡ disk.entries)
        × ((q : FilePath)
            → contains disk'.directories q ≡ (contains disk.directories q || on_way done rest q))
  unfolding makedirs is_free on_way
  makedirs_lem done [] disk free = (disk, refl, refl, λ q. ground arith)
  makedirs_lem done (part ∷ rest) disk free =
      let here = done ++ part ∷ [] in
      let next = record disk { directories = with_directory here disk.directories } in
      let (disk', e, same, at) = makedirs_lem here rest next (ground arith) in
      (
        disk',
        if_false {b = is_some (lookup here disk.entries)} _ _ (ground arith) ∙ e,
        same,
        λ q. ground (arith, at q, contains-with_directory here q disk.directories),
      )

  -- The directory is there, and only those on its way are new.
  pub record IsMade (path : FilePath) (disk disk' : Disk Entry) : Type 0 where
    pub entries : disk'.entries ≡ disk.entries
    pub there : on_way [] path path ≡ true → contains disk'.directories path ≡ true
    pub kept :
        (q : FilePath) → contains disk.directories q ≡ true → contains disk'.directories q ≡ true
    pub others :
        (q : FilePath)
        → on_way [] path q ≡ false
        → contains disk.directories q ≡ false
        → contains disk'.directories q ≡ false

  pub create_dir-IsMade :
      (path : FilePath) (disk : Disk Entry)
      → is_free [] path disk.entries ≡ true
      → lookup path disk.entries ≡ none
      → (disk' : Disk Entry) × (create_dir path disk ≡ ok disk') × IsMade path disk disk'
  unfolding create_dir exists
  create_dir-IsMade path disk free absent =
      let alone : exists path disk ≡ contains disk.directories path = rw absent (ground arith) in
      elim (Bool-cases (contains disk.directories path)) [
        | inl old ↦ (
          disk,
          if_true _ _ (alone ∙ old),
          record { entries = refl; there = λ h. old; kept = λ q h. h; others = λ q h g. g },
        )
        | inr new ↦
            let (disk', e, same, at) = makedirs_lem [] path disk free in
            (
              disk',
              if_false _ _ (alone ∙ new) ∙ e,
              record {
                entries = same;
                there = λ h. ground (arith, at path, h);
                kept = λ q h. ground (arith, at q, h);
                others = λ q h g. ground (arith, at q, h, g);
              },
            )
      ]

  lookup-remove_other :
      (k j : FilePath) (d : Dict FilePath Entry)
      → (k == j) ≡ false
      → lookup j (remove k d) ≡ lookup j d
  unfolding lookup remove
  lookup-remove_other k j [] h = refl
  lookup-remove_other k j ((i, e) ∷ d) h =
      ground
        (arith, lookup-remove_other k j d h, list_beq_iff i k, list_beq_iff i j, list_beq_iff k j)

  pub write_lem :
      (path : FilePath) (content : Entry) (disk : Disk Entry)
      → contains disk.directories path ≡ false
      → contains disk.directories (parent path) ≡ true
      → write path content disk ≡ ok (record disk { entries = insert path content disk.entries })
  unfolding write
  write_lem path content disk file there = if_false _ _ file ∙ if_true _ _ there

  -- The entries without that of the path.
  abbrev cleared : FilePath → Dict FilePath Entry → Dict FilePath Entry
  cleared path entries = if is_some (lookup path entries) then remove path entries else entries

  lookup-cleared :
      (k j : FilePath) (d : Dict FilePath Entry)
      → (k == j) ≡ false
      → lookup j (cleared k d) ≡ lookup j d
  lookup-cleared k j d h = elim (Bool-cases (is_some (lookup k d))) [
    | inl old ↦ ap (lookup j) (if_true _ _ old) ∙ lookup-remove_other k j d h
    | inr new ↦ ap (lookup j) (if_false _ _ new)
  ]

  remove_old_lem :
      (path : FilePath) (disk : Disk Entry)
      → contains disk.directories path ≡ false
      → remove_old path disk ≡ ok (record disk { entries = cleared path disk.entries })
  unfolding remove_old exists
  remove_old_lem path disk file =
      let seen : exists path disk ≡ is_some (lookup path disk.entries) =
        ap (λ b. b || is_some (lookup path disk.entries)) file in
      if_false _ _ file ∙ (elim (Bool-cases (is_some (lookup path disk.entries))) [
        | inl old ↦
            if_true _ _ (seen ∙ old)
            ∙ ap (λ es. ok (record disk { entries = es })) (sym (if_true _ _ old))
        | inr new ↦
            if_false _ _ (seen ∙ new)
            ∙ ap (λ es. ok (record disk { entries = es })) (sym (if_false _ _ new))
      ])

  -- A path in a directory that is there, and not a directory itself, holds the new entry, whatever
  -- it held, and the others are left.
  pub replaced :
      (path : FilePath) (entry : Entry) (disk : Disk Entry)
      → contains disk.directories path ≡ false
      → contains disk.directories (parent path) ≡ true
      → (disk' : Disk Entry) × ((remove_old path disk
            >>= (λ d. ok (or_printed (write path entry d) d)))
          ≡ ok disk')
        × (disk'.directories ≡ disk.directories)
        × ((j : FilePath)
            → lookup j disk'.entries ≡ (if path == j then some entry else lookup j disk.entries))
  unfolding or_printed
  replaced path entry disk file there =
      let clear : Disk Entry = record disk { entries = cleared path disk.entries } in
      let after : Disk Entry = record disk {
        entries = insert path entry (cleared path disk.entries);
      } in
      (
        after,
        ap (λ r. r >>= (λ d. ok (or_printed (write path entry d) d)))
              (remove_old_lem path disk file)
            ∙ ap (λ r. ok (or_printed r clear)) (write_lem path entry clear file there),
        refl,
        λ j.
            lookup-insert path j entry (cleared path disk.entries)
            ∙ (elim (Bool-cases (path == j)) [
              | inl e ↦ if_true _ _ e ∙ sym (if_true _ _ e)
              | inr e ↦
                  if_false _ _ e ∙ (lookup-cleared path j disk.entries e ∙ sym (if_false _ _ e))
            ]),
      )
