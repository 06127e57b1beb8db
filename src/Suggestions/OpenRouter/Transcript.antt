-- ===== src/Suggestions/OpenRouter/Transcript.antt =====
-- openrouter.go: an attempt with its circumstances, and writeTranscript.
use arda_wed_gateway.Base.{
  ℕ, zero, suc, Bool, not, List, [], ◌∷◌, ◌++◌, leb, length, take, if◌then◌else◌,
}
use arda_wed_gateway.Base.Text.{Text, codes, decimal}
use arda_wed_gateway.Base.Text.Space.{trim_space, is_blank}
use arda_wed_gateway.Base.Text.Utf8.{to_bytes}
use arda_wed_gateway.Base.Word.{pos, add64}
use arda_wed_gateway.Suggestions.OpenRouter.{
  Answer, content, error, OpenRouterClient, default_transcript_dir, Exchange, marshal_fails,
  create_fails, send_fails, read_fails, responds, error_text,
}

-- rawResponse when requestOnce returns.
abbrev pub raw_response : Exchange → List ℕ
raw_response (responds status payload) = payload
raw_response (marshal_fails cause) = []
raw_response (create_fails cause) = []
raw_response (send_fails cause) = []
raw_response (read_fails cause) = []

-- The named result `content`: an error leaves it empty.
abbrev pub content_of : Answer → Text
content_of (content c) = c
content_of (error e) = []

-- How os.WriteFile ends: the file cannot be created, some bytes are written before an error, or all.
pub data FileWrite : Type 0 where
  file_refused file_complete : FileWrite
  file_cut : ℕ → FileWrite

-- One attempt: its exchange, its time for the file's name and in the file, whether the directory can be
-- made, the indented JSON of the request, and how the file is written.
pub record Attempt : Type 0 where
  pub exchange : Exchange
  pub file_stamp : Text
  pub started_at : Text
  pub dir_made : Bool
  pub request_json : Text
  pub file_write : FileWrite

-- A file that is left; its content is bytes.
pub record Transcript : Type 0 where
  pub dir : Text
  pub filename : Text
  pub body : List ℕ

-- %06d
abbrev pub padded : ℕ → Text → Text
padded zero s = s
padded (suc n) s = if leb 6 (length s) then s else padded n (b'0' ∷ s)

abbrev pub or_empty : List ℕ → List ℕ
or_empty [] = codes "(empty)" ++ (10 ∷ [])
or_empty (b ∷ bs) = (b ∷ bs) ++ (10 ∷ [])

abbrev pub error_line : Answer → Text
error_line (content c) = codes "(none)" ++ (10 ∷ [])
error_line (error e) = error_text e ++ (10 ∷ [])

unfoldable pub transcript_body : Text → Attempt → Answer → List ℕ
unfolding error_text to_bytes trim_space
transcript_body model a answer =
    to_bytes (
      codes "started_at_utc: "
      ++ (a.started_at
          ++ (10
              ∷ (codes "model: "
                  ++ (model
                      ++ (10
                          ∷ (codes "request_json:"
                              ++ (10 ∷ (a.request_json ++ (10 ∷ 10 ∷ codes "response_raw:"))))))))))
    ++ (10
        ∷ (or_empty (raw_response a.exchange)
            ++ (10
                ∷ (codes "response_content:"
                    ++ (10
                        ∷ ((if is_blank (content_of answer)
                              then or_empty []
                              else to_bytes (content_of answer) ++ (10 ∷ []))
                            ++ (10 ∷ (codes "error:" ++ (10 ∷ to_bytes (error_line answer))))))))))

-- What is left of a file; the error of WriteFile is dropped.
unfoldable pub left_behind : FileWrite → Transcript → List Transcript
left_behind file_refused t = []
left_behind file_complete t = t ∷ []
left_behind (file_cut n) t = record t { body = take n t.body } ∷ []

-- writeTranscript: the client counts a transcript, whether its file can be written or not.
unfoldable pub write_transcript :
    Attempt → Answer → OpenRouterClient → OpenRouterClient × List Transcript
unfolding transcript_body left_behind
write_transcript a answer c =
    if not a.dir_made
    then (c, [])
    else (let seq = add64 c.transcript_seq 1 in
        let file : Transcript = record {
          dir = if is_blank c.transcript_dir then default_transcript_dir else c.transcript_dir;
          filename = a.file_stamp ++ (codes "-" ++ (padded 6 (decimal (pos seq)) ++ codes ".log"));
          body = transcript_body c.model a answer;
        } in
        (record c { transcript_seq = seq }, left_behind a.file_write file))
