-- ===== src/Site/Certificates/Writes.antt =====
-- The writes of files into the directories of certificates: one step of client/router_create.go at a
-- time, and its loops.
use skupper_docker.Base.{
  ◌≡◌, refl, ap, ◌∙◌, String, Bool, true, false, ◌||◌, none, some, List, [], ◌∷◌, ◌==◌, any, arith,
  Bool-cases, inl, inr, eq_self, eq→path, if◌then◌else◌,
}
use skupper_docker.Base.Dict
use skupper_docker.Base.Dict.{Dict}
use skupper_docker.Base.Exec.{Result, ok, Exec, is_ok, ◌>>◌, step-is_ok, step-state}
use skupper_docker.Errors.{Error}
use skupper_docker.Types.{Credential, CertAuthority}
use skupper_docker.Site.Certificates.{
  Store, make_dir, write_file, write_files, get_cert_data, join, connect_json, ensure_ca,
  generate_credentials, write_connect, ensure_all, generate_all,
}

-- files written over others
put_files : Dict String → Dict String → Dict String
put_files [] files = files
put_files ((file, text) ∷ more) files = put_files more (Dict.insert file text files)

-- A step went through, one directory has new files, and the others are as before.
pub record Wrote (name : String) (files : Dict String) (s : Store)
    (r : Result Error (Unit {0}) × Store) : Type 0 where
  pub fine : is_ok r.0 ≡ true
  pub writes : r.1.writable ≡ s.writable
  pub there :
      (d : String)
      → Dict.lookup d r.1.dirs ≡ (if d == name then some files else Dict.lookup d s.dirs)

write_file-Wrote :
    (name file text : String) (files : Dict String) (s : Store)
    → s.writable ≡ true
    → Dict.lookup name s.dirs ≡ some files
    → Wrote name (Dict.insert file text files) s (write_file name file text s)
unfolding write_file
write_file-Wrote name file text files s w e = record {
  fine = ground arith;
  writes = ground arith;
  there = λ d. ground (arith, Dict.lookup-insert d name (Dict.insert file text files) s.dirs);
}

-- one directory, written twice
twice :
    (name : String) (files more : Dict String) (s : Store) (a b : Exec Error Store (Unit {0}))
    → Wrote name files s (a s)
    → Wrote name more (a s).1 (b (a s).1)
    → Wrote name more s ((a >> b) s)
twice name files more s a b first second =
    let after : ((a >> b) s).1 ≡ (b (a s).1).1 = step-state a b s ∙ rw first.fine refl in
    record {
      fine = step-is_ok a b s ∙ rw first.fine second.fine;
      writes = ap (λ (x : Store). x.writable) after ∙ second.writes ∙ first.writes;
      there = λ d.
          ap (λ (x : Store). Dict.lookup d x.dirs) after
          ∙ second.there d
          ∙ ground (arith, first.there d);
    }

nothing-Wrote :
    (name : String) (files : Dict String) (s : Store)
    → Dict.lookup name s.dirs ≡ some files
    → Wrote name files s (ok tt, s)
nothing-Wrote name files s e = record {
  fine = refl;
  writes = refl;
  there = λ d. elim (Bool-cases (d == name)) [
    | inl same ↦ rw (same, eq→path d name same) e
    | inr other ↦ rw other refl
  ];
}

write_files-Wrote :
    (name : String) (more files : Dict String) (s : Store)
    → s.writable ≡ true
    → Dict.lookup name s.dirs ≡ some files
    → Wrote name (put_files more files) s (write_files name more s)
unfolding write_files put_files
write_files-Wrote name [] files s w e = nothing-Wrote name files s e
write_files-Wrote name ((file, text) ∷ more) files s w e =
    let first = write_file-Wrote name file text files s w e in
    let s' = (write_file name file text s).1 in
    let e' : Dict.lookup name s'.dirs ≡ some (Dict.insert file text files) =
      first.there name ∙ rw (eq_self name) refl in
    twice name (Dict.insert file text files) (put_files more (Dict.insert file text files)) s
      (write_file name file text) (write_files name more) first
      (write_files-Wrote name more (Dict.insert file text files) s' (first.writes ∙ w) e')

make_dir-Wrote :
    (name : String) (s : Store)
    → s.writable ≡ true
    → Dict.lookup name s.dirs ≡ none
    → Wrote name [] s (make_dir name s)
unfolding make_dir
make_dir-Wrote name s w e = record {
  fine = ground arith;
  writes = ground arith;
  there = λ d. ground (arith, Dict.lookup-insert d name [] s.dirs);
}

with_connect : Bool → Dict String → Dict String
with_connect true files = Dict.insert "connect.json" connect_json files
with_connect false files = files

write_connect-Wrote :
    (b : Bool) (name : String) (files : Dict String) (s : Store)
    → s.writable ≡ true
    → Dict.lookup name s.dirs ≡ some files
    → Wrote name (with_connect b files) s (write_connect b name s)
unfolding write_connect with_connect
write_connect-Wrote true name files s w e =
    write_file-Wrote name "connect.json" connect_json files s w e
write_connect-Wrote false name files s w e = nothing-Wrote name files s e

got_cert_data :
    (name : String) (files : Dict String) (s : Store)
    → Dict.lookup name s.dirs ≡ some files
    → get_cert_data name s ≡ files
unfolding get_cert_data
got_cert_data name files s e = ground arith

module _ (generate_ca : (name subject : String) → Dict String)
    (generate : (name subject hosts : String) → Dict String → Dict String) where
  -- the files of an authority, in a new directory
  pub ca_files : String → Dict String
  unfolding put_files
  ca_files name = put_files (generate_ca name name) []

  -- the files of a credential, from those of its authority, in an empty directory
  unfoldable pub credential_files : Credential → Dict String
  unfolding put_files with_connect
  credential_files c =
      with_connect c.connect_json
        (put_files (generate c.name c.subject (join c.hosts) (ca_files c.ca)) [])

  ensure_ca-Wrote :
      (name : String) (s : Store)
      → s.writable ≡ true
      → Dict.lookup name s.dirs ≡ none
      → Wrote name (ca_files name) s (ensure_ca generate_ca generate name s)
  unfolding ensure_ca ca_files
  ensure_ca-Wrote name s w e =
      let made = make_dir-Wrote name s w e in
      let s' = (make_dir name s).1 in
      twice name [] (put_files (generate_ca name name) []) s (make_dir name)
        (write_files name (generate_ca name name)) made
        (write_files-Wrote name (generate_ca name name) [] s' (made.writes ∙ w)
          (made.there name ∙ rw (eq_self name) refl))

  generate_credentials-Wrote :
      (c : Credential) (s : Store)
      → s.writable ≡ true
      → Dict.lookup c.name s.dirs ≡ some []
      → Dict.lookup c.ca s.dirs ≡ some (ca_files c.ca)
      → Wrote c.name (credential_files c) s (generate_credentials generate_ca generate c s)
  unfolding generate_credentials credential_files
  generate_credentials-Wrote c s w e ca =
      let cert = generate c.name c.subject (join c.hosts) (ca_files c.ca) in
      let first = write_files-Wrote c.name cert [] s w e in
      let s' = (write_files c.name cert s).1 in
      rw (got_cert_data c.ca (ca_files c.ca) s ca) (
        twice c.name (put_files cert []) (with_connect c.connect_json (put_files cert [])) s
          (write_files c.name cert) (write_connect c.connect_json c.name) first
          (write_connect-Wrote c.connect_json c.name (put_files cert []) s' (first.writes ∙ w)
            (first.there c.name ∙ rw (eq_self c.name) refl)))

  -- the authorities whose directories are to be made, each once
  unfoldable pub AreNew : List CertAuthority → Store → Type 0
  AreNew [] s = Unit
  AreNew (ca ∷ cas) s =
      (Dict.lookup ca.name s.dirs ≡ none)
      × (any (λ (x : CertAuthority). x.name == ca.name) cas ≡ false)
      × AreNew cas s

  AreNew-kept :
      (n : String) (files : Dict String) (cas : List CertAuthority) (s s' : Store)
      → ((d : String)
          → Dict.lookup d s'.dirs ≡ (if d == n then some files else Dict.lookup d s.dirs))
      → any (λ (x : CertAuthority). x.name == n) cas ≡ false
      → AreNew cas s
      → AreNew cas s'
  unfolding AreNew
  AreNew-kept n files [] s s' there other new = tt
  AreNew-kept n files (ca ∷ cas) s s' there other (miss, once, new) =
      (there ca.name ∙ ground arith, once, AreNew-kept n files cas s s' there (ground arith) new)

  pub ensure_all_lem :
      (cas : List CertAuthority) (s : Store)
      → s.writable ≡ true
      → AreNew cas s
      → ((ensure_all generate_ca generate cas s).1.writable ≡ true)
        × ((d : String)
            → Dict.lookup d (ensure_all generate_ca generate cas s).1.dirs ≡ (
                if any (λ (x : CertAuthority). x.name == d) cas
                then some (ca_files d)
                else Dict.lookup d s.dirs))
  unfolding ensure_all AreNew
  ensure_all_lem [] s w new = (w, λ (d : String). refl)
  ensure_all_lem (ca ∷ cas) s w (miss, once, new) =
      let wrote = ensure_ca-Wrote ca.name s w miss in
      let s' = (ensure_ca generate_ca generate ca.name s).1 in
      let (w', there) =
        ensure_all_lem cas s' (wrote.writes ∙ w)
          (AreNew-kept ca.name (ca_files ca.name) cas s s' wrote.there once new) in
      (w', λ (d : String). there d ∙ ground (arith, wrote.there d))

  -- The credentials whose directories are empty, and whose authorities are there.
  unfoldable pub AreReady : List Credential → Store → Type 0
  AreReady [] s = Unit
  AreReady (c ∷ cs) s =
      (Dict.lookup c.name s.dirs ≡ some [])
      × (Dict.lookup c.ca s.dirs ≡ some (ca_files c.ca))
      × (any (λ (x : Credential). x.name == c.name || x.ca == c.name) cs ≡ false)
      × AreReady cs s

  AreReady-kept :
      (n : String) (files : Dict String) (cs : List Credential) (s s' : Store)
      → ((d : String)
          → Dict.lookup d s'.dirs ≡ (if d == n then some files else Dict.lookup d s.dirs))
      → any (λ (x : Credential). x.name == n || x.ca == n) cs ≡ false
      → AreReady cs s
      → AreReady cs s'
  unfolding AreReady
  AreReady-kept n files [] s s' there other ready = tt
  AreReady-kept n files (c ∷ cs) s s' there other (empty, ca, once, ready) = (
    there c.name ∙ ground arith,
    there c.ca ∙ ground arith,
    once,
    AreReady-kept n files cs s s' there (ground arith) ready,
  )

  abbrev pub AreIssued : List Credential → Store → Type 0
  AreIssued [] s = Unit
  AreIssued (c ∷ cs) s = (Dict.lookup c.name s.dirs ≡ some (credential_files c)) × AreIssued cs s

  pub generate_all_lem :
      (cs : List Credential) (s : Store)
      → s.writable ≡ true
      → AreReady cs s
      → AreIssued cs (generate_all generate_ca generate cs s).1
        × ((d : String)
            → any (λ (x : Credential). x.name == d || x.ca == d) cs ≡ false
            → Dict.lookup d (generate_all generate_ca generate cs s).1.dirs ≡ Dict.lookup d s.dirs)
  unfolding generate_all AreReady
  generate_all_lem [] s w ready = (tt, λ (d : String) other. refl)
  generate_all_lem (c ∷ cs) s w (empty, ca, once, ready) =
      let wrote = generate_credentials-Wrote c s w empty ca in
      let s' = (generate_credentials generate_ca generate c s).1 in
      let (issued, same) =
        generate_all_lem cs s' (wrote.writes ∙ w)
          (AreReady-kept c.name (credential_files c) cs s s' wrote.there once ready) in
      (
        (same c.name once ∙ wrote.there c.name ∙ rw (eq_self c.name) refl, issued),
        λ (d : String) other. same d (ground arith) ∙ wrote.there d ∙ ground arith,
      )
