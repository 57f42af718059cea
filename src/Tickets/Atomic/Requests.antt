-- ===== src/Tickets/Atomic/Requests.antt =====
-- Requests that are answered with an error
-- (apps/backend/src/tickets/tickets.service.ts, behind apps/backend/src/tickets/tickets.controller.ts).
use sentinel_desk.Prelude.{ℕ, ◌≡◌, List, [], ◌∷◌, ◌++◌, err, HttpError, ◌⊎◌}
use sentinel_desk.Schema.{Comment}
use sentinel_desk.Store.{Db, Env}
use sentinel_desk.Tickets.Create.{UploadedFile}
use sentinel_desk.Tickets.Reply.{Reply}
use sentinel_desk.Tickets.Endpoints.{Request, creates, comments}

-- The files that a request brings.
abbrev pub files_of : Request → List UploadedFile
files_of (creates dto files) = files
files_of (comments id dto files) = files
files_of _ = []

-- The storage rejects one of the files, with an error.
abbrev pub IsRejected : Env → HttpError → List UploadedFile → Type 0
IsRejected env e [] = ⊥
IsRejected env e (f ∷ fs) =
    ((id : ℕ) × (env.upload id f.originalname ≡ err e)) ⊎ IsRejected env e fs

-- An upload was rejected, and the comment that the file came with is kept.
abbrev pub IsHalfDone : Env → HttpError → Request → Db → Db → Type 0
IsHalfDone env e r db after =
    IsRejected env e (files_of r) × (c : Comment) × (after.comments ≡ db.comments ++ c ∷ [])
