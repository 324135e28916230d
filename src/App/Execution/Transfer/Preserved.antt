-- ===== src/App/Execution/Transfer/Preserved.antt =====
-- About the files that are there before `process_file`.
use tidyflow.Base.Text.{Text}
use tidyflow.App.Files.Laws.{same_path→eq}
use tidyflow.App.Execution.Transfer.{
  M, copy_to, verify_copy, deliver, make_parent, process_file, is_synced, deliver_unless,
  target_path, resolve_target, ◌>>=◌, transfer,
}
use tidyflow.App.Execution.Transfer.Targets.{resolve_target-free}
use tidyflow.App.Execution.Transfer.Verified.{is_synced-files}
use tidyflow.App.Files.{
  Host, FilePath, Files, copy_file, is_file, file_name, exists, same_path, set_node, create_dir_all,
  created, parent,
}
use tidyflow.Base.{
  some, ◌≡◌, ◌≢◌, true, ok, Result-cases, Bool-cases, inr, arith, inl, Option, Option-cases, none,
  Bool, false, refl,
}
use tidyflow.Domain.Job.{Job, copy, overwrite}

pub free-same_path :
    (p q : FilePath) (fs : Files) → exists p fs ≡ false → exists q fs ≡ true → same_path p q ≡ false
free-same_path p q fs free there = elim (Bool-cases (same_path p q)) [
  | inr miss ↦ miss
  | inl hit ↦ let same = same_path→eq p q hit in absurd (cc (same, free, there))
]

module _ {A B : Type 0} (q : FilePath) (m : M A) (f : A → M B) (fs : Files) where
  -- A chain keeps what its steps keep.
  >>=-keeps :
      (m fs).1 q ≡ fs q
      → ((a : A) → (m fs).0 ≡ ok a → (f a (m fs).1).1 q ≡ fs q)
      → ((m >>= f) fs).1 q ≡ fs q
  >>=-keeps first second = elim (Result-cases (m fs).0) [
    | inl (a, ran) ↦ let next = second a ran in ground (arith, ran)
    | inr (x, bad) ↦ ground (arith, bad)
  ]

module _ (host : Host) where
  pub verify_copy-files : (p r : FilePath) (fs : Files) → (verify_copy host p r fs).1 ≡ fs
  unfolding verify_copy
  verify_copy-files p r fs = ground arith

module _ (host : Host) (q : FilePath) where
  copy_file-keeps :
      (p r : FilePath) (fs : Files) → same_path r q ≡ false → (copy_file host p r fs).1 q ≡ fs q
  unfolding copy_file set_node
  copy_file-keeps p r fs other = ground arith

  create_dir_all-keeps :
      (d : FilePath) (fs : Files) → exists q fs ≡ true → (create_dir_all host d fs).1 q ≡ fs q
  unfolding create_dir_all created
  create_dir_all-keeps d fs there = ground arith

  make_parent-keeps :
      (r : FilePath) (fs : Files) → exists q fs ≡ true → (make_parent host r fs).1 q ≡ fs q
  unfolding deliver
  make_parent-keeps r fs there = elim (Option-cases (parent r)) [
    | inl at_root ↦ ground (arith, at_root)
    | inr (d, above) ↦ ground (arith, above, create_dir_all-keeps d fs there)
  ]

  copy_to-keeps :
      (job : Job) (p r : FilePath) (fs : Files)
      → same_path r q ≡ false
      → (copy_to host job p r fs).1 q ≡ fs q
  unfolding copy_to
  copy_to-keeps job p r fs other =
      ground
        (arith, copy_file-keeps p r fs other, verify_copy-files host p r (copy_file host p r fs).1)

  deliver-keeps :
      (job : Job) (p target : FilePath) (resolved : Option FilePath) (fs : Files)
      → job.mode ≡ copy
      → exists q fs ≡ true
      → ((r : FilePath) → resolved ≡ some r → exists r fs ≡ false)
      → (deliver host job p target resolved fs).1 q ≡ fs q
  unfolding deliver
  deliver-keeps job p target none fs mode there free = refl
  deliver-keeps job p target (some r) fs mode there free =
      let fs1 = (make_parent host r fs).1 in
      let kept : fs1 q ≡ fs q = make_parent-keeps r fs there in
      let other = free-same_path r q fs (free r refl) there in
      >>=-keeps q (make_parent host r) (λ u. transfer host job.mode job p r) fs kept
        (λ u ran. let copied_there = copy_to-keeps job p r fs1 other in ground (arith, mode))

  deliver_unless-keeps :
      (synced : Bool) (name : Option Text) (job : Job) (p dir root target : FilePath) (fs : Files)
      → job.mode ≡ copy
      → job.conflict ≢ overwrite
      → exists q fs ≡ true
      → (deliver_unless host synced job p name dir root target fs).1 q ≡ fs q
  unfolding deliver_unless
  deliver_unless-keeps true name job p dir root target fs mode gentle there = refl
  deliver_unless-keeps false none job p dir root target fs mode gentle there = refl
  deliver_unless-keeps false (some given) job p dir root target fs mode gentle there =
      elim (Result-cases (resolve_target dir given job.conflict root p fs)) [
        | inr (x, bad) ↦ ground (arith, bad)
        | inl (resolved, found) ↦
            let kept = deliver-keeps job p target resolved fs mode there (λ r chosen.
              resolve_target-free dir given job.conflict root p r fs gentle (rw chosen at found)) in
            ground (arith, found)
      ]

  -- A file that is copied without overwriting leaves everything that was there before as it was,
  -- whether the transfer succeeds or fails half-way.
  pub process_file-keeps :
      (job : Job) (p dir root : FilePath) (fs : Files)
      → job.mode ≡ copy
      → job.conflict ≢ overwrite
      → exists q fs ≡ true
      → (process_file host job p dir root fs).1 q ≡ fs q
  unfolding process_file
  process_file-keeps job p dir root fs mode gentle there =
      elim (Result-cases (target_path root p (is_file (fs root)) (file_name p) dir)) [
        | inr (x, bad) ↦ ground (arith, bad)
        | inl (target, aimed) ↦
            let same = is_synced-files host job p target fs in
            elim (Result-cases (is_synced host job p target fs).0) [
              | inr (x, bad) ↦ ground (arith, aimed, bad, same)
              | inl (synced, compared) ↦
                  let kept =
                    deliver_unless-keeps synced (file_name p) job p dir root target fs mode gentle
                      there in
                  ground (arith, aimed, compared, same, kept)
            ]
      ]
