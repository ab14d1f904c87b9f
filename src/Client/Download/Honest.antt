-- ===== src/Client/Download/Honest.antt =====
-- The answers of a server that serves one file, and what an attempt makes of them.
use mathlib.Core.List.{append_assoc, append-nil}
use navmesh_go.Base.{
  ℕ, suc, ◌≤◌, ◌<◌, ◌≡◌, ◌∙◌, sym, refl, ap, subst, true, false, ◌&&◌, Option, none, some, List, [],
  ◌∷◌, ◌++◌, ◌⊎◌, arith, ltb, leb, ◌==◌, if◌then◌else◌, length, length-append, drop, on_if,
  Bool-cases, inl, inr,
}
use navmesh_go.Client.Download.{
  Response, Answer, bad_request, no_answer, answered, LastError, fine, transient, permanent,
  Progress, upgrade_download_max_attempts, parse_upgrade_content_range_total, range_or,
  retry_upgrade_download, is_retryable_upgrade_download_status, retry_upgrade_download_status,
  response_total, Step, failed, ended, restarted, contents, extra_bytes, is_complete, copy_error,
  or_again, copy_body, receive_body, reject_range, on_response, on_answer,
}
use navmesh_go.Client.Download.Verified.{IsHashed, no_bytes}

-- Where the body of an answer starts in the file.
abbrev pub body_start : Response → ℕ → ℕ
body_start r offset = if r.status == 206 then offset else 0

-- An answer with a body, or with an error that passes; the disk works.
pub record IsHonestResponse (file : List ℕ) (offset : ℕ) (r : Response) : Type 0 where
  pub total :
      range_or (length file) (parse_upgrade_content_range_total r.content_range) ≡ length file
  pub passing :
      leb 300 r.status ≡ true
      → r.status ≡ 416 ⊎ (is_retryable_upgrade_download_status r.status ≡ true)
  pub missing : List ℕ
  pub body : leb 300 r.status ≡ false → r.body ++ missing ≡ drop (body_start r offset) file
  pub untorn : extra_bytes r.copy_end ≡ []
  pub opens : r.open_fails ≡ false
  pub has_size : r.stat_fails ≡ false
  pub resets : r.reset_fails ≡ false

-- What a server of the file answers, also if it cannot be reached.
abbrev pub IsHonest : List ℕ → ℕ → Answer → Type 0
IsHonest file offset bad_request = ⊥
IsHonest file offset no_answer = Unit
IsHonest file offset (answered r) = IsHonestResponse file offset r

pub record IsWholeResponse (file : List ℕ) (offset : ℕ) (r : Response) : Type 0 where
  pub copied : is_complete r.copy_end ≡ true
  pub synced : r.sync_fails ≡ false
  pub closed : r.close_fails ≡ false
  pub rest :
      ((leb 300 r.status ≡ false) × (r.body ≡ drop (body_start r offset) file))
      ⊎ ((r.status ≡ 416) × (offset ≡ length file))

-- An answer with all that is left, or the error that nothing is left.
abbrev pub IsWhole : List ℕ → ℕ → Answer → Type 0
IsWhole file offset bad_request = ⊥
IsWhole file offset no_answer = ⊥
IsWhole file offset (answered r) = IsWholeResponse file offset r

drop-append : (xs ys : List ℕ) → drop (length xs) (xs ++ ys) ≡ ys
drop-append [] ys = refl
drop-append (x ∷ xs) ys = drop-append xs ys

pub no_more : (xs ys : List ℕ) → length (xs ++ ys) ≤ length xs → xs ++ ys ≡ xs
no_more xs [] h = append-nil xs
no_more xs (y ∷ ys) h = absurd (omega (arith, length-append xs (y ∷ ys)))

-- A copy without an error leaves a file of the total size.
copy_error_size :
    (r : Response) (size total : ℕ) → 0 < total → copy_error r size total ≡ fine → size ≡ total
unfolding copy_error
copy_error_size r size total h e = ground arith

module _ (file : List ℕ) (some_file : 0 < length file) where
  -- The part is a start of the file.
  whole_body :
      (r : Response) (offset : ℕ)
      → IsWholeResponse file offset r
      → leb 300 r.status ≡ false
      → r.body ≡ drop (body_start r offset) file
  whole_body r offset w ok = elim w.rest [
    | inl (low, body) ↦ body
    | inr (s, e) ↦ absurd (ground arith)
  ]

  whole_copy :
      (r : Response) (size total offset : ℕ)
      → IsWholeResponse file offset r
      → size ≡ total
      → copy_error r size total ≡ fine
  unfolding copy_error
  whole_copy r size total offset w e =
      let copied = w.copied in let synced = w.synced in let closed = w.closed in ground arith

  abbrev pub IsStart : Option (List ℕ) → Type 0
  IsStart part = (missing : List ℕ) × (contents part ++ missing ≡ file)

  abbrev pub Holds : Progress → Type 0
  Holds p = IsHashed p × (p.total_size ≡ length file) × IsStart p.part

  abbrev pub Arrived : Progress → Type 0
  Arrived p = (p.last_error ≡ fine) × (p.part ≡ some file) × (p.hashed ≡ file)

  -- What a step gives: a state to go on with, or, if the answer was whole (`W`) or there are attempts
  -- left, the file.
  abbrev pub Fits : Type 0 → ℕ → Step → Type 0
  Fits W attempt (failed e p) = ⊥
  Fits W attempt (ended true p) = Holds p × (¬ W)
  Fits W attempt (ended false p) = (W ⊎ suc attempt < upgrade_download_max_attempts) → Arrived p

  retry-Fits :
      (W : Type 0) (attempt : ℕ) (p : Progress)
      → Holds p
      → ¬ W
      → Fits W attempt (ended (retry_upgrade_download attempt) p)
  unfolding retry_upgrade_download
  retry-Fits W attempt p h not_whole = elim (Bool-cases (leb 5 attempt)) [
    | inl late ↦
        rw late (λ c. elim c [ inl w ↦ absurd (not_whole w) | inr room ↦ absurd (ground arith) ])
    | inr early ↦ rw early (h, not_whole)
  ]

  pub all_of_it :
      (part : Option (List ℕ))
      → IsStart part
      → length (contents part) ≡ length file
      → (part ≡ some file) × (contents part ≡ file)
  all_of_it none start size = absurd (omega arith)
  all_of_it (some bytes) (missing, split) size =
      let e : bytes ≡ file =
        sym (no_more bytes missing (omega (arith, ap length split, size))) ∙ split in
      (ap some e, e)

  arrive :
      (p : Progress) → Holds p → p.last_error ≡ fine → p.downloaded_size ≡ length file → Arrived p
  arrive p ((hashed, size), total, start) last whole =
      let (part, bytes) = all_of_it p.part start (sym size ∙ whole) in (last, part, hashed ∙ bytes)

  -- A copy that leaves a start of the file.
  copied-Fits :
      (W : Type 0) (attempt : ℕ) (e : LastError) (p : Progress)
      → Holds p
      → p.last_error ≡ e
      → (e ≡ fine → p.downloaded_size ≡ length file)
      → (W → e ≡ fine)
      → Fits W attempt (ended (or_again attempt e) p)
  copied-Fits W attempt transient p h last whole w =
      retry-Fits W attempt p h (λ x. absurd (let e = w x in cc))
  copied-Fits W attempt permanent p h last whole w =
      retry-Fits W attempt p h (λ x. absurd (let e = w x in cc))
  copied-Fits W attempt fine p h last whole w = λ c. arrive p h last (whole refl)

  copy_body-Fits :
      (attempt : ℕ) (r : Response) (old : List ℕ) (p : Progress) (offset : ℕ)
      → IsHonestResponse file offset r
      → leb 300 r.status ≡ false
      → p.hashed ≡ old
      → p.total_size ≡ length file
      → old ++ drop (body_start r offset) file ≡ file
      → Fits (IsWholeResponse file offset r) attempt (copy_body attempt r old p)
  unfolding copy_body
  copy_body-Fits attempt r old p offset honest ok hashed total split =
      let W : Type 0 = IsWholeResponse file offset r in
      let file' : List ℕ = old ++ (r.body ++ extra_bytes r.copy_end) in
      let e : file' ≡ old ++ r.body = rw (honest.untorn, append-nil r.body) refl in
      let whole : p.hashed ++ r.body ≡ file' = rw hashed (sym e) in
      let start : file' ++ honest.missing ≡ file =
        rw (e, append_assoc old r.body honest.missing, honest.body ok) split in
      on_if (Fits W attempt) r.stat_fails (λ x. absurd cc)
        (λ x.
          copied-Fits W attempt (copy_error r (length file') p.total_size) _
            ((whole, refl), total, (honest.missing, start)) refl
            (λ x.
              copy_error_size r (length file') p.total_size
                (subst (λ n. 0 < n) (sym total) some_file) x
              ∙ total)
            (λ w.
              whole_copy r (length file') p.total_size offset w (
                ap length (e ∙ ap (λ l. old ++ l) (whole_body r offset w ok) ∙ split) ∙ sym total)))

  offset_split : (p : Progress) → Holds p → contents p.part ++ drop p.downloaded_size file ≡ file
  offset_split p ((hashed, size), total, (missing, split)) =
      let e : drop p.downloaded_size file ≡ missing = rw size (
        ap (drop (length (contents p.part))) (sym split) ∙ drop-append (contents p.part) missing) in
      rw e split

  at_start : (p : Progress) → Holds p → ltb 0 p.downloaded_size ≡ false → p.hashed ≡ []
  at_start p ((hashed, size), total, split) start =
      hashed ∙ no_bytes (contents p.part) (ground arith)

  pub within : (p : Progress) → Holds p → p.downloaded_size ≤ length file
  within p ((hashed, size), total, (missing, split)) =
      omega (arith, size, ap length split, length-append (contents p.part) missing)

  from_start :
      (r : Response) (p : Progress)
      → ltb 0 p.downloaded_size ≡ false
      → drop (body_start r p.downloaded_size) file ≡ file
  from_start r p start =
      let e : p.downloaded_size ≡ 0 = ground arith in
      on_if (λ n. drop n file ≡ file) (r.status == 206) (λ x. rw e refl) (λ x. refl)

  -- The part before the body that `receive_body` writes, with the progress.
  receive_body-Fits :
      (attempt : ℕ) (r : Response) (p : Progress)
      → IsHonestResponse file p.downloaded_size r
      → leb 300 r.status ≡ false
      → Holds p
      → Fits (IsWholeResponse file p.downloaded_size r) attempt (receive_body attempt r p)
  unfolding receive_body
  receive_body-Fits attempt r p honest ok h =
      on_if (Fits (IsWholeResponse file p.downloaded_size r) attempt) r.open_fails (λ x. absurd cc)
        (λ x.
          on_if (Fits (IsWholeResponse file p.downloaded_size r) attempt) (ltb 0 p.downloaded_size)
            (λ more.
              on_if (Fits (IsWholeResponse file p.downloaded_size r) attempt) (r.status == 206)
                (λ part.
                  copy_body-Fits attempt r (contents p.part) p p.downloaded_size honest ok h.0.0 h.1
                    (rw part (offset_split p h)))
                (λ all.
                  copy_body-Fits attempt r [] (restarted p) p.downloaded_size honest ok refl h.1
                    (rw all refl)))
            (λ start.
              copy_body-Fits attempt r [] p p.downloaded_size honest ok (at_start p h start) h.1
                (from_start r p start)))

  reject_range-Fits :
      (attempt : ℕ) (r : Response) (p : Progress)
      → IsHonestResponse file p.downloaded_size r
      → r.status ≡ 416
      → p.last_error ≡ fine
      → Holds p
      → Fits (IsWholeResponse file p.downloaded_size r) attempt (reject_range attempt r p)
  unfolding reject_range
  reject_range-Fits attempt r p honest rejected last h =
      let W : Type 0 = IsWholeResponse file p.downloaded_size r in
      let total = h.1 in
      on_if (Fits W attempt) (ltb 0 p.total_size && (p.downloaded_size == p.total_size))
        (λ all c. arrive p h last (ground arith))
        (λ part.
          on_if (Fits W attempt) r.reset_fails (λ x. absurd cc)
            (λ x.
              retry-Fits W attempt (record (restarted p) { part = none; last_error = transient })
                ((refl, refl), total, (file, refl))
                (λ w. elim w.rest [
                  | inl (low, body) ↦ absurd (ground arith)
                  | inr (s, e) ↦ absurd (ground arith)
                ])))

  total_kept :
      (r : Response) (p : Progress)
      → IsHonestResponse file p.downloaded_size r
      → p.total_size ≡ length file
      → response_total p r ≡ length file
  unfolding response_total
  total_kept r p honest total =
      let known : range_or p.total_size (parse_upgrade_content_range_total r.content_range)
          ≡ length file =
        rw total honest.total in
      let positive : ltb 0 (length file) ≡ true = ground arith in rw (known, positive) refl

  -- An error that passes leaves the part as it is.
  passing-Fits :
      (attempt : ℕ) (r : Response) (p : Progress)
      → IsHonestResponse file p.downloaded_size r
      → (r.status == 416) ≡ false
      → leb 300 r.status ≡ true
      → Holds p
      → Fits
          (IsWholeResponse file p.downloaded_size r)
          attempt
          (ended (retry_upgrade_download_status attempt r.status) p)
  unfolding retry_upgrade_download_status
  passing-Fits attempt r p honest other high h =
      let W : Type 0 = IsWholeResponse file p.downloaded_size r in
      let again : is_retryable_upgrade_download_status r.status ≡ true =
        elim (honest.passing high) [ inl e ↦ absurd (ground arith) | inr e ↦ e ] in
      rw again (
        retry-Fits W attempt p h (λ w. elim w.rest [
          | inl (low, body) ↦ absurd (ground arith)
          | inr (s, e) ↦ absurd (ground arith)
        ]))

  on_response-Fits :
      (attempt : ℕ) (r : Response) (p : Progress)
      → IsHonestResponse file p.downloaded_size r
      → p.last_error ≡ fine
      → Holds p
      → Fits (IsWholeResponse file p.downloaded_size r) attempt (on_response attempt r p)
  unfolding on_response
  on_response-Fits attempt r p honest last (hashed, total, start) =
      let W : Type 0 = IsWholeResponse file p.downloaded_size r in
      let h : Holds (record p { total_size = response_total p r }) =
        (hashed, total_kept r p honest total, start) in
      on_if (Fits W attempt) (r.status == 416)
        (λ x.
          reject_range-Fits attempt r (record p { total_size = response_total p r }) honest
            (ground arith) last h)
        (λ x.
          on_if (Fits W attempt) (leb 300 r.status)
            (λ high. passing-Fits attempt r _ honest x high h)
            (λ ok.
              receive_body-Fits attempt r (record p { total_size = response_total p r }) honest ok
                h))

  pub on_answer-Fits :
      (attempt : ℕ) (answer : Answer) (p : Progress)
      → IsHonest file p.downloaded_size answer
      → Holds p
      → Fits (IsWhole file p.downloaded_size answer) attempt (on_answer attempt answer p)
  unfolding on_answer
  on_answer-Fits attempt bad_request p honest h = absurd honest
  on_answer-Fits attempt no_answer p honest h =
      retry-Fits ⊥ attempt (record p { last_error = transient }) h (λ w. w)
  on_answer-Fits attempt (answered r) p honest h =
      on_response-Fits attempt r (record p { last_error = fine }) honest refl h
