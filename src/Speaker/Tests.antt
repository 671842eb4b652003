-- ===== src/Speaker/Tests.antt =====
-- A witness for the speaker: the note A.
use luma_osjang.Common.{◌+◌, ◌*◌, ◌^◌, ◌≤◌, ◌<◌, ◌≡◌, arith}
use luma_osjang.Speaker.{speaker_play, divisor_of, counted, speaker_play_lem}

speaker_play_lem_example :
    let (bytes, value) = divisor_of (speaker_play 0x30 440) (3, 0) in
    let divisor = counted value in
    (bytes ≡ 2) × (divisor < 2 ^ 16) × (440 * divisor ≤ 1193180) × (1193180 < 440 * divisor + 440)
speaker_play_lem_example = speaker_play_lem 0x30 440 (omega arith) (omega arith)
