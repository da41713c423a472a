-- ===== src/Mensajes/Tipos.antt =====
-- `enum tipo_datos` of sockets_lib/sockets_lib.h: the types of the messages, as they travel.
use tp_2014_1c_tp_so.Base.Int.{ℤ, pos}

abbrev pub conec_cerrada : ℤ
conec_cerrada = pos 0

abbrev pub hs_kernel : ℤ
hs_kernel = pos 10

abbrev pub hs_prog : ℤ
hs_prog = pos 11

abbrev pub hs_cpu : ℤ
hs_cpu = pos 12

abbrev pub hs_umv : ℤ
hs_umv = pos 13

abbrev pub fin_quantum : ℤ
fin_quantum = pos 20

abbrev pub cpu_desconec : ℤ
cpu_desconec = pos 21

abbrev pub imprimir_valor : ℤ
imprimir_valor = pos 22

abbrev pub imprimir_texto : ℤ
imprimir_texto = pos 23

abbrev pub fin_ejecucion : ℤ
fin_ejecucion = pos 24

abbrev pub obtener_valor : ℤ
obtener_valor = pos 25

abbrev pub grabar_valor : ℤ
grabar_valor = pos 26

abbrev pub valor_asignado : ℤ
valor_asignado = pos 27

abbrev pub sem_bloqueado : ℤ
sem_bloqueado = pos 28

abbrev pub sem_ok : ℤ
sem_ok = pos 29

abbrev pub r_imprimir : ℤ
r_imprimir = pos 50

abbrev pub r_obtener_valor : ℤ
r_obtener_valor = pos 52

abbrev pub r_grabar_valor : ℤ
r_grabar_valor = pos 53

abbrev pub sincro_ok : ℤ
sincro_ok = pos 61

abbrev pub io_id : ℤ
io_id = pos 63

abbrev pub io_cant_unidades : ℤ
io_cant_unidades = pos 64

abbrev pub signal : ℤ
signal = pos 65

abbrev pub wait : ℤ
wait = pos 66

abbrev pub pcb_y_quantum : ℤ
pcb_y_quantum = pos 68

abbrev pub var_inex : ℤ
var_inex = pos 69

abbrev pub sem_inex : ℤ
sem_inex = pos 70

abbrev pub ped_mem_seg_cod : ℤ
ped_mem_seg_cod = pos 200

abbrev pub ped_mem_ind_eti : ℤ
ped_mem_ind_eti = pos 201

abbrev pub ped_mem_ind_cod : ℤ
ped_mem_ind_cod = pos 202

abbrev pub ped_mem_seg_stack : ℤ
ped_mem_seg_stack = pos 203

abbrev pub destr_segs : ℤ
destr_segs = pos 204

abbrev pub escribir_seg : ℤ
escribir_seg = pos 205

abbrev pub codigo_script : ℤ
codigo_script = pos 206

abbrev pub ind_eti_func : ℤ
ind_eti_func = pos 207

abbrev pub ind_cod : ℤ
ind_cod = pos 208

abbrev pub ind_stack : ℤ
ind_stack = pos 209

abbrev pub resp_mem_seg_cod : ℤ
resp_mem_seg_cod = pos 250

abbrev pub resp_mem_ind_eti : ℤ
resp_mem_ind_eti = pos 251

abbrev pub resp_mem_ind_cod : ℤ
resp_mem_ind_cod = pos 252

abbrev pub resp_mem_seg_stack : ℤ
resp_mem_seg_stack = pos 253

abbrev pub men_alm_ok : ℤ
men_alm_ok = pos 254

abbrev pub sol_bytes : ℤ
sol_bytes = pos 300

abbrev pub alm_bytes : ℤ
alm_bytes = pos 301

abbrev pub cambio_pa : ℤ
cambio_pa = pos 302

abbrev pub r_sol_bytes : ℤ
r_sol_bytes = pos 350

abbrev pub r_alm_bytes : ℤ
r_alm_bytes = pos 351

abbrev pub mem_overload : ℤ
mem_overload = pos 352

abbrev pub segmen_fault : ℤ
segmen_fault = pos 353
