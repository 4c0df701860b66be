-- ===== src/Drivers/VgaText/Scroll.antt =====
-- os/drivers/vga_text.c: `vga_text_scroll`.
use hrishikos.Base.{
  ℕ, zero, suc, ◌+◌, ◌-◌, ◌*◌, ◌/◌, ◌%◌, ◌^◌, ◌≤◌, ◌<◌, ◌≡◌, refl, arith, ◌&&◌, some, ◌==◌, ltb,
  leb, if◌then◌else◌, update, inl, inr, Bool-cases, false, ltb→lt, ◌∙◌,
}
use hrishikos.Clib.Strings.{memcpy}
use hrishikos.Clib.Strings.Copy.{memcpy_lem}
use hrishikos.Drivers.VgaText.{VgaText, attribute_of, clear_segment_loop, clear_segment, scroll}

clear_segment_loop_lem :
    (fuel : ℕ) (m : ℕ → ℕ) (attribute i end a : ℕ)
    → i % 2 ≡ 0
    → end % 2 ≡ 0
    → i ≤ end
    → end < 2 ^ 15
    → end ≤ i + 2 * fuel
    → clear_segment_loop fuel m attribute i end a
      ≡ (if leb i a && ltb a end then (if a % 2 == 0 then 0x20 else attribute) else m a)
unfolding clear_segment_loop
clear_segment_loop_lem zero m attribute i end a hi he le small enough = ground arith
clear_segment_loop_lem (suc fuel) m attribute i end a hi he le small enough =
    elim (Bool-cases (ltb i end)) [
      | inl more ↦
          let less = ltb→lt i end more in
          let next : (i + 2) % 2 ^ 16 ≡ i + 2 = omega arith in
          let m' = update (update m i 0x20) (i + 1) attribute in
          let rest =
            clear_segment_loop_lem fuel m' attribute (i + 2) end a (omega arith) he (omega arith)
              small (omega arith) in
          rw (more, next) (ground (arith, rest))
      | inr done ↦ rw done (ground (arith, done))
    ]

-- `vga_text_scroll` of at most 25 rows succeeds: row `count` and those below it move up to the top,
-- the rows that get free show spaces in the present colours, and nothing outside the 4000 bytes of
-- the screen changes.
pub scroll_lem :
    (v : VgaText) (count : ℕ)
    → count ≤ 25
    → (w : VgaText) × (scroll v count ≡ some w)
      × (w.cursor_x ≡ v.cursor_x)
      × (w.cursor_y ≡ v.cursor_y)
      × ((a : ℕ)
          → w.memory a ≡ (
              if leb 4000 a
              then v.memory a
              else if ltb (a / 160 + count) 25
              then v.memory (a + 160 * count)
              else if a % 2 == 0
              then 0x20
              else attribute_of v.foreground_color v.background_color))
unfolding scroll clear_segment
scroll_lem v count small =
    let fits : ltb 25 count ≡ false = ground arith in
    let kept = (25 - count) * (80 * 2) in
    let low : kept % 2 ^ 16 ≡ 4000 - 160 * count = omega arith in
    let high : (kept + count * (80 * 2)) % 2 ^ 16 ≡ 4000 = omega arith in
    let m' = memcpy v.memory 0 (count * (80 * 2)) kept in
    let attribute = attribute_of v.foreground_color v.background_color in
    (
      record v { memory = clear_segment_loop (2 ^ 15) m' attribute (4000 - 160 * count) 4000 },
      rw (fits, low, high),
      refl,
      refl,
      λ a.
          clear_segment_loop_lem (2 ^ 15) m' attribute (4000 - 160 * count) 4000 a (omega arith)
            (omega arith) (omega arith) (omega arith) (omega arith)
          ∙ ground (arith, memcpy_lem v.memory 0 (count * (80 * 2)) kept a),
    )
