-- ===== src/Sync/Directory.antt =====
-- What `sync_dir` of crates/riley-leaderboards-core/src/sync/execute.rs reports of a directory.
use mathlib.Core.List.{append-nil, append_assoc}
use riley_leaderboards.Prelude.{
  ℕ, ◌+◌, String, ◌≡◌, refl, sym, ap, ◌∙◌, inl, inr, Bool, true, false, ◌&&◌, Option, none, some,
  List, [], ◌∷◌, ◌++◌, map, arith, if◌then◌else◌, Bool-cases, length, option_list, length-append,
}
use riley_leaderboards.Models.{
  Result, ok_or, ok-injective, bind-eq-ok, guard-eq-ok, ok_or-eq-ok, bad_directory, validation, ok,
  err, Version,
}
use riley_leaderboards.Models.Json.{Json}
use riley_leaderboards.Models.Steps.{Step}
use riley_leaderboards.Repo.{validate_slug}
use riley_leaderboards.Db.{Db}
use riley_leaderboards.Repo.Versions.Placements.{Sql}
use riley_leaderboards.Sync.{
  SyncAction, BoardSyncResult, created, updated, no_change, skipped, failed,
}
use riley_leaderboards.Sync.Parse.{
  JsonValues, ParsedBoard, BoardToml, RankingsToml, BoardDir, read_to_string, exists_file, parsed,
  read_rankings, parse_board_dir, parsed_boards, parse_all, parse_boards_dir,
}
use riley_leaderboards.Sync.Execute.{SyncKeys, sync_board, reported, sync_all, sync_dir}
use riley_leaderboards.Sync.History.{SameHistory}
use riley_leaderboards.Sync.Recorded.{ByAction, Recorded}
use riley_leaderboards.Sync.BoardHistory.{sync_board-Recorded}

-- The versions that an action reports.
abbrev pub versions_of : SyncAction → ℕ
versions_of (created n) = 1
versions_of (updated n) = 1
versions_of _ = 0

abbrev pub reported_versions : List BoardSyncResult → ℕ
reported_versions [] = 0
reported_versions (r ∷ rs) = versions_of r.action + reported_versions rs

-- The versions of the first tables come first, with as many more behind them.
abbrev pub Grown : {V : Type 0} → Db V → Db V → ℕ → Type 0
Grown {V} db db' n =
    (new : List (Version V)) × (db'.versions ≡ db.versions ++ new) × (length new ≡ n)

module _ {V : Type 0} where
  same-Grown : (db db' : Db V) → SameHistory db db' → Grown db db' 0
  same-Grown db db' h = ([], h.versions ∙ sym (append-nil db.versions), refl)

  ByAction-Grown :
      (db db' : Db V) (action : SyncAction)
      → ByAction db db' action
      → Grown db db' (versions_of action)
  ByAction-Grown db db' (created n) (h, _) = (h.0 ∷ [], h.1, refl)
  ByAction-Grown db db' (updated n) (h, _) = (h.0 ∷ [], h.1, refl)
  ByAction-Grown db db' no_change h = same-Grown db db' h
  ByAction-Grown db db' skipped h = same-Grown db db' h
  ByAction-Grown db db' (failed e) h = same-Grown db db' h

  then-Grown : (a b c : Db V) (m n : ℕ) → Grown a b m → Grown b c n → Grown a c (m + n)
  then-Grown a b c m n (xs, p, p') (ys, q, q') = (
    xs ++ ys,
    q ∙ ap (λ l. l ++ ys) p ∙ append_assoc a.versions xs ys,
    length-append xs ys ∙ omega (arith, p', q'),
  )

module _ (json : Json) (values : JsonValues json.Value) (sql : Sql json.Value)
    (keys : ℕ → SyncKeys) where
  reported-Grown :
      (p : ParsedBoard json.Value) (db : Db json.Value) (x : Db json.Value × Result BoardSyncResult)
      → Recorded p.slug db x
      → ((reported json values sql keys p x).1.slug ≡ p.slug)
        × Grown db
            (reported json values sql keys p x).0
            (versions_of (reported json values sql keys p x).1.action)
  reported-Grown p db (db', ok r) (slug, h) = (slug, ByAction-Grown db db' r.action h)
  reported-Grown p db (db', err e) h = (refl, same-Grown db db' h)

  sync_all-Grown :
      (i : ℕ) (ps : List (ParsedBoard json.Value)) (note : Option String) (db : Db json.Value)
      → (map (λ (r : BoardSyncResult). r.slug) (sync_all json values sql keys i ps note db).1
          ≡ map (λ (p : ParsedBoard json.Value). p.slug) ps)
        × Grown db
            (sync_all json values sql keys i ps note db).0
            (reported_versions (sync_all json values sql keys i ps note db).1)
  unfolding sync_all
  sync_all-Grown i [] _ db =
      (refl, same-Grown db db (record { versions = refl; placements = refl }))
  sync_all-Grown i (p ∷ ps) note db =
      let x = sync_board json values sql (keys i) p note db in
      let now = reported json values sql keys p x in
      let (slug, grown) =
        reported-Grown p db x (sync_board-Recorded json values sql (keys i) p note db) in
      let (slugs, later) = sync_all-Grown (i + 1) ps note now.0 in
      (
        rw (slug, slugs) refl,
        then-Grown db now.0 (sync_all json values sql keys (i + 1) ps note now.0).0 _ _ grown later,
      )

abbrev is_ok : {A : Type 0} → Result A → Bool
is_ok (ok a) = true
is_ok (err e) = false

module _ {V : Type 0} (values : JsonValues V) (board_from_str : String → Option BoardToml)
    (rankings_from_str : String → Option RankingsToml) where
  abbrev parse_dir : BoardDir → Result (ParsedBoard V)
  parse_dir dir = parse_board_dir values board_from_str rankings_from_str dir

  -- The names of the subdirectories that have a `board.toml` and can be parsed, in their order.
  abbrev pub board_names : List BoardDir → List String
  board_names [] = []
  board_names (dir ∷ dirs) =
      let rest = board_names dirs in
      if exists_file dir.board_toml && is_ok (parse_dir dir)
      then option_list dir.file_name ++ rest
      else rest

  file_name-parse_board_dir :
      (dir : BoardDir) {b : ParsedBoard V} → parse_dir dir ≡ ok b → dir.file_name ≡ some b.slug
  unfolding parse_board_dir
  file_name-parse_board_dir dir h =
      let (slug, named, h) = bind-eq-ok (ok_or dir.file_name (validation bad_directory)) _ h in
      let (_, h) = guard-eq-ok (validate_slug slug) _ h in
      let (text, _, h) = bind-eq-ok (read_to_string "board.toml" dir.board_toml) _ h in
      let (board, _, h) = bind-eq-ok (parsed board_from_str "board.toml" text) _ h in
      let (rankings, _, h) =
        bind-eq-ok (read_rankings values board_from_str rankings_from_str dir.rankings_toml) _ h in
      ok_or-eq-ok dir.file_name (validation bad_directory) named
      ∙ ap (λ (b : ParsedBoard V). some b.slug) (ok-injective h)

  slugs-parsed_boards :
      (name : Option String) (r : Result (ParsedBoard V)) (boards : List (ParsedBoard V))
      (names : List String)
      → ((b : ParsedBoard V) → r ≡ ok b → name ≡ some b.slug)
      → map (λ (p : ParsedBoard V). p.slug) boards ≡ names
      → map
          (λ (p : ParsedBoard V). p.slug)
          (parsed_boards values board_from_str rankings_from_str r ++ boards)
        ≡ (if is_ok r then option_list name ++ names else names)
  slugs-parsed_boards name (ok b) boards names named rest = rw (named b refl, rest) refl
  slugs-parsed_boards name (err e) boards names named rest = rest

  slugs-parse_all :
      (dirs : List BoardDir)
      → map (λ (p : ParsedBoard V). p.slug) (parse_all values board_from_str rankings_from_str dirs)
        ≡ board_names dirs
  unfolding parse_all
  slugs-parse_all [] = refl
  slugs-parse_all (dir ∷ dirs) =
      let rest = slugs-parse_all dirs in
      elim (Bool-cases (exists_file dir.board_toml)) [
        | inl e ↦ rw e (
            slugs-parsed_boards dir.file_name (parse_dir dir) _ _
              (λ b h. file_name-parse_board_dir dir h) rest)
        | inr e ↦ rw e rest
      ]

module _ (json : Json) (values : JsonValues json.Value) (sql : Sql json.Value) (keys : ℕ → SyncKeys)
    (board_from_str : String → Option BoardToml)
    (rankings_from_str : String → Option RankingsToml) where
  abbrev pub sync_files :
      Option (List BoardDir) → Option String → Step (Db json.Value) (List BoardSyncResult)
  sync_files dirs note =
      sync_dir json values sql keys (parse_boards_dir values board_from_str rankings_from_str dirs)
        note

  -- A directory that can be listed always gets its report, also where some boards fail: one
  -- result for each subdirectory that has a `board.toml` and can be parsed, in their order, and
  -- none for the others. The versions that there were stay in front, and as many come behind them
  -- as the results name. A directory that cannot be listed is a validation error and changes
  -- nothing.
  pub sync_dir-reports :
      (dirs : List BoardDir) (note : Option String) (db : Db json.Value)
      → (sync_files none note db ≡ (db, err (validation bad_directory)))
        × (rs : List BoardSyncResult) × ((sync_files (some dirs) note db).1 ≡ ok rs)
        × (map (λ (r : BoardSyncResult). r.slug) rs
            ≡ board_names values board_from_str rankings_from_str dirs)
        × Grown db (sync_files (some dirs) note db).0 (reported_versions rs)
  unfolding sync_dir parse_boards_dir
  sync_dir-reports dirs note db =
      let boards = parse_all values board_from_str rankings_from_str dirs in
      let (slugs, grown) = sync_all-Grown json values sql keys 0 boards note db in
      (
        refl,
        (sync_all json values sql keys 0 boards note db).1,
        refl,
        slugs ∙ slugs-parse_all values board_from_str rankings_from_str dirs,
        grown,
      )
