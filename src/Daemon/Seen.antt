-- ===== src/Daemon/Seen.antt =====
-- internal/daemon/capture.go: what captureFile remembers of the files that it took.
use iter.Common.{
  ℕ, ◌+◌, ◌≡◌, refl, sym, ap, subst, Bool, true, false, ◌||◌, ◌==◌, ==_iff, if◌then◌else◌, ltb,
  Option, none, some, List, [], ◌∷◌, String, str_eq, eq_iff, Bool-cases, inl, inr, arith, ◌⊎◌, All,
}
use iter.Daemon.Capture.{
  FileInfo, CapturedSession, CaptureConfig, Seen, seen_at, capture_complete_after, same_file,
  take_session, capture_file, Candidate, capture_candidate, capture_files,
}

module _ (path : String) (info : FileInfo) (seen : Seen) (session : CapturedSession) where
  taken_session :
      (o : Option CapturedSession)
      → (take_session path info seen o).0 ≡ some session
      → (take_session path info seen o).1 ≡ (path, info) ∷ seen
  unfolding take_session
  taken_session none h = absurd (ground (arith, h))
  taken_session (some s) h = by_prompt (str_eq s.prompt "") h
    where
      by_prompt :
          (b : Bool)
          → (if◌then◌else◌ {A = Option CapturedSession × Seen} b
              (none, seen)
              (some s, (path, info) ∷ seen)).0
            ≡ some session
          → (if◌then◌else◌ {A = Option CapturedSession × Seen} b
              (none, seen)
              (some s, (path, info) ∷ seen)).1
            ≡ (path, info) ∷ seen
      by_prompt true k = absurd (ground (arith, k))
      by_prompt false k = refl

  taken_by :
      (a b c : Bool) (o : Option CapturedSession)
      → (if a
          then (none, seen)
          else if b
          then (none, seen)
          else if c
          then (none, seen)
          else take_session path info seen o).0
        ≡ some session
      → (if a
          then (none, seen)
          else if b
          then (none, seen)
          else if c
          then (none, seen)
          else take_session path info seen o).1
        ≡ (path, info) ∷ seen
  taken_by true b c o h = absurd (ground (arith, h))
  taken_by false true c o h = absurd (ground (arith, h))
  taken_by false false true o h = absurd (ground (arith, h))
  taken_by false false false o h = taken_session o h

  taken :
      (cfg : CaptureConfig) (now : ℕ) (parse : Option CapturedSession)
      → (capture_file cfg now path info parse seen).0 ≡ some session
      → (capture_file cfg now path info parse seen).1 ≡ (path, info) ∷ seen
  unfolding capture_file
  taken cfg now parse h =
      taken_by ((info.size == 0) || ltb cfg.max_bytes info.size)
        (same_file (seen_at path seen) info) (ltb now (info.mod_time + capture_complete_after))
        parse h

-- The later candidates that the runner looks at, turn by turn with their times.
abbrev pub look : CaptureConfig → List (ℕ × List Candidate) → Seen → Seen
look cfg [] seen = seen
look cfg (turn ∷ turns) seen = look cfg turns (capture_files cfg turn.0 turn.1 seen).1

-- As often as the file stands among the candidates, it has this size and time.
abbrev pub Unchanged : String → FileInfo → Candidate → Type 0
Unchanged path info c = (str_eq c.path path ≡ true) → (c.info ≡ none) ⊎ (c.info ≡ some info)

module _ (cfg : CaptureConfig) (path : String) (info : FileInfo) where
  abbrev refused : Bool
  refused = (info.size == 0) || ltb cfg.max_bytes info.size

  IsSeen : Seen → Type 0
  IsSeen seen = seen_at path seen ≡ info

  not_again :
      (later : ℕ) (again : Option CapturedSession) (seen : Seen)
      → IsSeen seen
      → capture_file cfg later path info again seen ≡ (none, seen)
  unfolding capture_file seen_at IsSeen
  not_again later again seen known = elim (Bool-cases refused) [
    | inl e ↦ rw e refl
    | inr e ↦
        rw e rw known rw ((==_iff info.size info.size).1 refl) rw
          ((==_iff info.mod_time info.mod_time).1 refl) refl
  ]

  unmoved :
      (now : ℕ) (other : String) (fi : FileInfo) (parse : Option CapturedSession) (seen : Seen)
      → other ≡ path
      → fi ≡ info
      → IsSeen seen
      → ◌≡◌ {A = Option CapturedSession × Seen}
          (capture_file cfg now other fi parse seen)
          (none, seen)
  unmoved now other fi parse seen p q known = rw p rw q (not_again now parse seen known)

  -- The others that are taken are entered under their own paths.
  taken_elsewhere :
      (other : String) (size_and_time : FileInfo) (parse : Option CapturedSession) (seen : Seen)
      → str_eq other path ≡ false
      → IsSeen seen
      → IsSeen (take_session other size_and_time seen parse).1
  unfolding take_session IsSeen seen_at
  taken_elsewhere other fi none seen d known = known
  taken_elsewhere other fi (some s) seen d known = by_prompt (str_eq s.prompt "")
    where
      by_prompt :
          (b : Bool)
          → seen_at path
              (if◌then◌else◌ {A = Option CapturedSession × Seen} b
                (none, seen)
                (some s, (other, fi) ∷ seen)).1
            ≡ info
      by_prompt true = known
      by_prompt false = rw d known

  elsewhere :
      (now : ℕ) (other : String) (fi : FileInfo) (parse : Option CapturedSession) (seen : Seen)
      → str_eq other path ≡ false
      → IsSeen seen
      → IsSeen (capture_file cfg now other fi parse seen).1
  unfolding capture_file
  elsewhere now other fi parse seen d known =
      by_tests ((fi.size == 0) || ltb cfg.max_bytes fi.size) (same_file (seen_at other seen) fi)
        (ltb now (fi.mod_time + capture_complete_after))
    where
      by_tests :
          (a b c : Bool)
          → IsSeen
              (if◌then◌else◌ {A = Option CapturedSession × Seen} a
                (none, seen)
                (if◌then◌else◌ {A = Option CapturedSession × Seen} b
                  (none, seen)
                  (if◌then◌else◌ {A = Option CapturedSession × Seen} c
                    (none, seen)
                    (take_session other fi seen parse)))).1
      by_tests true b c = known
      by_tests false true c = known
      by_tests false false true = known
      by_tests false false false = taken_elsewhere other fi parse seen d known

  candidate-IsSeen :
      (now : ℕ) (c : Candidate) (o : Option FileInfo) (seen : Seen)
      → (str_eq c.path path ≡ true → (o ≡ none) ⊎ (o ≡ some info))
      → IsSeen seen
      → IsSeen (capture_candidate cfg now c o seen).1
  unfolding capture_candidate
  candidate-IsSeen now c none seen same known = known
  candidate-IsSeen now c (some fi) seen same known = elim (Bool-cases (str_eq c.path path)) [
    | inr d ↦ elsewhere now c.path fi c.parse seen d known
    | inl e ↦ elim (same e) [
      | inl q ↦ absurd (ground (arith, q))
      | inr q ↦
          let same_info = ap (λ o. elim o [ none ↦ info | some x ↦ x ]) q in
          subst (λ r. IsSeen r.1)
            (sym (unmoved now c.path fi c.parse seen ((eq_iff c.path path).0 e) same_info known))
            known
    ]
  ]

  files-IsSeen :
      (now : ℕ) (cs : List Candidate) (seen : Seen)
      → All (Unchanged path info) cs
      → IsSeen seen
      → IsSeen (capture_files cfg now cs seen).1
  unfolding capture_files
  files-IsSeen now [] seen h known = known
  files-IsSeen now (c ∷ cs) seen h known =
      files-IsSeen now cs (capture_candidate cfg now c c.info seen).1 h.1
        (candidate-IsSeen now c c.info seen h.0 known)

  look-IsSeen :
      (turns : List (ℕ × List Candidate)) (seen : Seen)
      → All (λ turn. All (Unchanged path info) turn.1) turns
      → IsSeen seen
      → IsSeen (look cfg turns seen)
  look-IsSeen [] seen h known = known
  look-IsSeen (turn ∷ turns) seen h known =
      look-IsSeen turns (capture_files cfg turn.0 turn.1 seen).1 h.1
        (files-IsSeen turn.0 turn.1 seen h.0 known)

  found_again : (seen : Seen) → IsSeen ((path, info) ∷ seen)
  unfolding IsSeen seen_at
  found_again seen = rw ((eq_iff path path).1 refl) refl

-- A file that was taken is not taken again as long as its size and time stay what they were,
-- however late, whatever the parser says then, and whatever other files were looked at or taken in
-- the turns in between.
pub capture_file_once :
    (cfg : CaptureConfig) (now later : ℕ) (path : String) (info : FileInfo)
    (parse again : Option CapturedSession) (seen : Seen) (session : CapturedSession)
    (between : List (ℕ × List Candidate))
    → (capture_file cfg now path info parse seen).0 ≡ some session
    → All (λ turn. All (Unchanged path info) turn.1) between
    → let known = look cfg between (capture_file cfg now path info parse seen).1 in
      capture_file cfg later path info again known ≡ (none, known)
capture_file_once cfg now later path info parse again seen session between h same =
    let first =
      subst (IsSeen cfg path info) (sym (taken path info seen session cfg now parse h))
        (found_again cfg path info seen) in
    not_again cfg path info later again
      (look cfg between (capture_file cfg now path info parse seen).1)
      (look-IsSeen cfg path info between (capture_file cfg now path info parse seen).1 same first)
