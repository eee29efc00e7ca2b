-- ===== src/Node/SendFile/Safe.antt =====
-- node.rs: which files can leave the machine.
use agora_protocol.Base.{
  ℕ, ◌≡◌, refl, sym, ap, ◌∙◌, Bool, true, false, not, List, Option, none, some, Text, Bytes, any,
  mem_text, ltb,
}
use agora_protocol.Base.Result.{Result, ok, err, >>=-eq-ok, >>-eq-ok, bail_if-ok, ok_or, eq_of_ok}
use agora_protocol.Config.Types.{Config}
use agora_protocol.Files.Kinds.{Kind, text, classify}
use agora_protocol.Files.Paths.{sensitive}
use agora_protocol.Node.Types.{State}
use agora_protocol.Base.{eq_of_some}
use agora_protocol.Files.Kinds.{data_file, container, executable, unknown}
use agora_protocol.Node.SendFile.{
  not_text, content_checked, send_file, transmit_file, SendFileError, no_root, home_folder,
  outside_root, private_file, not_regular, too_large, has_secrets, unreadable, no_such_path, Found,
  secret_hits, file_target, file_path, text_checked, file_to_send,
}

-- What is true of a path that passes.
pub record IsSendable (inside : Text → Text → Bool) (f : Found) (cfg : Config) (full : Text)
    : Type 0 where
  pub found : f.full ≡ some full
  pub within :
      (root : Text) × (f.root ≡ some root)
      × (inside full root ≡ true)
      × (any (λ h. inside h root) f.homes ≡ false)
  pub public : sensitive full ≡ false
  pub small : ltb cfg.files.max_bytes f.size ≡ false

ok_or-ok : {A : Type 0} {E : Type 0} (o : Option A) (e : E) (a : A) → ok_or o e ≡ ok a → o ≡ some a
ok_or-ok none e a h = absurd (cc)
ok_or-ok (some x) e a h = ap some (eq_of_ok x a h)

undone : (b : Bool) → not b ≡ false → b ≡ true
undone true h = refl
undone false h = absurd (cc (h))

module _ (inside : Text → Text → Bool) (redact : Text → Text × List Text)
    (decode : Bytes → Option Text) (cfg : Config) where
  file_path-IsSendable :
      (has_root : Bool) (f : Found) (full : Text)
      → file_path inside redact decode cfg has_root f ≡ ok full
      → IsSendable inside f cfg full
  unfolding file_path
  file_path-IsSendable has_root f full h =
      let (a, h1) = bail_if-ok (not has_root) no_root _ h in
      let (root, r, h2) = >>=-eq-ok (ok_or f.root no_such_path) _ h1 in
      let (b, h3) = bail_if-ok (any (λ x. inside x root) f.homes) home_folder _ h2 in
      let (p, q, h4) = >>=-eq-ok (ok_or f.full no_such_path) _ h3 in
      let (c, h5) = bail_if-ok (not (inside p root)) outside_root _ h4 in
      let (d, h6) = bail_if-ok (sensitive p) private_file _ h5 in
      let (e, h7) = bail_if-ok (not f.regular) not_regular _ h6 in
      let (g, h8) = bail_if-ok (ltb cfg.files.max_bytes f.size) too_large _ h7 in
      let same = eq_of_ok p full h8 in
      record {
        found = ok_or-ok f.full no_such_path p q ∙ ap some same;
        within = (
          root,
          ok_or-ok f.root no_such_path root r,
          ap (λ x. inside x root) (sym same) ∙ undone (inside p root) c,
          b,
        );
        public = ap sensitive (sym same) ∙ d;
        small = g;
      }

  -- A text that passes has nothing that the guard takes for a secret.
  content_checked-clean :
      (k : Kind) (b : Bytes) (t : Text)
      → content_checked inside redact decode cfg k b ≡ ok tt
      → k ≡ text
      → decode b ≡ some t
      → any (λ h. mem_text h secret_hits) (redact t).1 ≡ false
  unfolding content_checked text_checked
  content_checked-clean text b t h e d =
      let (u, v, w) = >>=-eq-ok (ok_or (decode b) not_text) _ h in
      let same = eq_of_some u t (sym (ok_or-ok (decode b) not_text u v) ∙ d) in
      let (x, y) = bail_if-ok (any (λ h. mem_text h secret_hits) (redact u).1) has_secrets _ w in
      ap (λ z. any (λ h. mem_text h secret_hits) (redact z).1) (sym same) ∙ x
  content_checked-clean data_file b t h e d = absurd (cc (e))
  content_checked-clean container b t h e d = absurd (cc (e))
  content_checked-clean executable b t h e d = absurd (cc (e))
  content_checked-clean unknown b t h e d = absurd (cc (e))

  -- A file is sent only if it stands in the project folder, which is neither a home folder nor contains
  -- one, its path is not one of a credential or key file, it is not larger than the limit, and, if its
  -- content is a text, the guard finds no private key, token, secret or credentials in it.
  pub send_file-safe :
      (clean : Text → Text × List Text) (hash encode : Bytes → Text) (from : Text) (has_root : Bool)
      (to : Text) (f : Found) (remark : Option Text) (id : Text) (ts : ℕ) (s s' : State)
      → send_file inside redact decode cfg clean hash encode from has_root to f remark id ts s
        ≡ (ok tt, s')
      → (full : Text) × IsSendable inside f cfg full
        × ((b : Bytes) × (f.content ≡ some b)
            × ((t : Text)
                → classify b ≡ text
                → decode b ≡ some t
                → any (λ h. mem_text h secret_hits) (redact t).1 ≡ false))
  unfolding send_file transmit_file file_to_send
  send_file-safe clean hash encode from has_root to f remark id ts s s' h =
      split (file_to_send inside redact decode cfg to has_root f) refl
    where
      split :
          (r : Result SendFileError ((Text × Text) × Bytes))
          → file_to_send inside redact decode cfg to has_root f ≡ r
          → (full : Text) × IsSendable inside f cfg full
            × ((b : Bytes) × (f.content ≡ some b)
                × ((t : Text)
                    → classify b ≡ text
                    → decode b ≡ some t
                    → any (λ h. mem_text h secret_hits) (redact t).1 ≡ false))
      split (err e) g =
          absurd (
            cc (ap (λ (x : Result SendFileError (Unit {0}) × State). x.0) (rw (send_file, g) at h)))
      split (ok r) g =
          let (target, p, h1) = >>=-eq-ok (file_target inside redact decode cfg to) _ g in
          let (full, q, h2) = >>=-eq-ok (file_path inside redact decode cfg has_root f) _ h1 in
          let (b, c, h3) = >>=-eq-ok (ok_or f.content unreadable) _ h2 in
          let (checked, rest) =
            >>-eq-ok (content_checked inside redact decode cfg (classify b) b) _ h3 in
          (
            full,
            file_path-IsSendable has_root f full q,
            (
              b,
              ok_or-ok f.content unreadable b c,
              λ t e d. content_checked-clean (classify b) b t checked e d,
            ),
          )
