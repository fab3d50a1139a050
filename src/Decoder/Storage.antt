-- ===== src/Decoder/Storage.antt =====
-- The branches, loads and stores of the opcodes from 0x14 on.
use n_ovl.Decoder.Op.{Op, text}

abbrev pub beql : Op
beql = text "BEQL" "%ns%rs, %rt, %br"

abbrev pub bnel : Op
bnel = text "BNEL" "%ns%rs, %rt, %br"

abbrev pub blezl : Op
blezl = text "BLEZL" "%ns%rs, %br"

abbrev pub bgtzl : Op
bgtzl = text "BGTZL" "%ns%rs, %br"

abbrev pub daddi : Op
daddi = text "DADDI" "%ns%rt, %rs, %ih"

abbrev pub daddiu : Op
daddiu = text "DADDIU" "%ns%rt, %rs, %ih"

abbrev pub ldl : Op
ldl = text "LDL" "%ns%rt, %ih(%rs)"

abbrev pub ldr : Op
ldr = text "LDR" "%ns%rt, %ih(%rs)"

abbrev pub lb : Op
lb = text "LB" "%ns%rt, %ih(%rs)"

abbrev pub lh : Op
lh = text "LH" "%ns%rt, %ih(%rs)"

abbrev pub lwl : Op
lwl = text "LWL" "%ns%rt, %ih(%rs)"

abbrev pub lw : Op
lw = text "LW" "%ns%rt, %ih(%rs)"

abbrev pub lbu : Op
lbu = text "LBU" "%ns%rt, %ih(%rs)"

abbrev pub lhu : Op
lhu = text "LHU" "%ns%rt, %ih(%rs)"

abbrev pub lwr : Op
lwr = text "LWR" "%ns%rt, %ih(%rs)"

abbrev pub lwu : Op
lwu = text "LWU" "%ns%rt, %ih(%rs)"

abbrev pub sb : Op
sb = text "SB" "%ns%rt, %ih(%rs)"

abbrev pub sh : Op
sh = text "SH" "%ns%rt, %ih(%rs)"

abbrev pub swl : Op
swl = text "SWL" "%ns%rt, %ih(%rs)"

abbrev pub sw : Op
sw = text "SW" "%ns%rt, %ih(%rs)"

abbrev pub sdl : Op
sdl = text "SDL" "%ns%rt, %ih(%rs)"

abbrev pub sdr : Op
sdr = text "SDR" "%ns%rt, %ih(%rs)"

abbrev pub swr : Op
swr = text "SWR" "%ns%rt, %ih(%rs)"

abbrev pub cache : Op
cache = text "CACHE" "%ns%rt, %ih(%rs)"

abbrev pub ll : Op
ll = text "LL" "%ns%rt, %ih(%rs)"

abbrev pub lwc1 : Op
lwc1 = text "LWC1" "%ns%ft, %ih(%rs)"

abbrev pub lld : Op
lld = text "LLD" "%ns%rt, %ih(%rs)"

abbrev pub ldc1 : Op
ldc1 = text "LDC1" "%ns%ft, %ih(%rs)"

abbrev pub ld : Op
ld = text "LD" "%ns%rt, %ih(%rs)"

abbrev pub sc : Op
sc = text "SC" "%ns%rt, %ih(%rs)"

abbrev pub swc1 : Op
swc1 = text "SWC1" "%ns%ft, %ih(%rs)"

abbrev pub scd : Op
scd = text "SCD" "%ns%rt, %ih(%rs)"

abbrev pub sdc1 : Op
sdc1 = text "SDC1" "%ns%rt, %ih(%rs)"

abbrev pub sd : Op
sd = text "SD" "%ns%rt, %ih(%rs)"
